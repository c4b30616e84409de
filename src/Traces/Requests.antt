-- ===== src/Traces/Requests.antt =====
-- What the client may rely on: no transaction asks twice for a lock, and `locks_each_txn` counts what
-- it asks for.
use net_lock.Common.{
  ℕ, ◌+◌, ◌≡◌, ◌⊎◌, inl, inr, refl, sym, ap, ◌∙◌, subst, List, [], ◌∷◌, map, none, some, Bool, true,
  false, ◌==◌, ◌&&◌, if◌then◌else◌, write, Bool-cases, branches, arith,
}
use net_lock.Traces.{
  Row, Setup, Entry, Loaded, upgraded, find_back, entry_of, target_of, add_entry, load_row,
  get_traces,
}

-- What matters of an entry here: the transaction, the lock, the action.
pub record Key : Type 0 where
  pub txn_id : ℕ
  pub target : ℕ
  pub action_type : ℕ

abbrev pub key_of : Entry → Key
key_of e = record { txn_id = e.txn_id; target = e.target_obj_idx; action_type = e.action_type }

-- The entries of the transaction at the front have none for the lock.
abbrev pub is_absent : (txn_id target : ℕ) → List Key → Bool
is_absent txn target [] = true
is_absent txn target (k ∷ ks) =
    if k.txn_id == txn
    then (if k.target == target then false else is_absent txn target ks)
    else true

-- No lock twice among entries of a transaction that stand together.
abbrev pub IsDistinct : List Key → Type 0
IsDistinct [] = Unit
IsDistinct (k ∷ ks) = (is_absent k.txn_id k.target ks ≡ true) × IsDistinct ks

-- The requests of a transaction.
abbrev pub requests : (txn_id : ℕ) → List Key → ℕ
requests txn [] = 0
requests txn (k ∷ ks) =
    (if (k.txn_id == txn) && (k.action_type == 0) then 1 else 0) + requests txn ks

pub record IsLoaded (l : Loaded) : Type 0 where
  pub distinct : IsDistinct (map key_of l.entries)
  pub counted : (txn : ℕ) → l.locks txn ≡ requests txn (map key_of l.entries)

pub find_back-cases :
    (b : Bool) (txn target lock_type : ℕ) (es : List Entry)
    → ((find_back b txn target lock_type es ≡ none) × (is_absent txn target (map key_of es) ≡ true))
      ⊎ ((es' : List Entry) × (find_back b txn target lock_type es ≡ some es')
          × (map key_of es' ≡ map key_of es))
unfolding find_back upgraded
find_back-cases b txn target lock_type [] = inl (refl, refl)
find_back-cases b txn target lock_type (e ∷ es) = elim (Bool-cases (e.txn_id == txn)) [
  | inr other ↦ inl (rw other refl, rw other refl)
  | inl mine ↦ elim (Bool-cases (e.target_obj_idx == target)) [
    | inl here ↦ inr (upgraded b lock_type e ∷ es, rw (mine, here) refl, refl)
    | inr further ↦ elim (find_back-cases b txn target lock_type es) [
      | inl (lost, absent) ↦
          inl (rw (find_back, mine, further, lost) refl, rw (mine, further) absent)
      | inr (es', found, same) ↦
          inr (e ∷ es', rw (find_back, mine, further, found) refl, ap (λ ks. key_of e ∷ ks) same)
    ]
  ]
]

add_entry-IsLoaded :
    (u : Setup) (r : Row) (l : Loaded)
    → is_absent r.txn_id (target_of u r) (map key_of l.entries) ≡ true
    → IsLoaded l
    → IsLoaded (add_entry u r l)
unfolding add_entry entry_of write
add_entry-IsLoaded u r l absent h = record {
  distinct = (absent, h.distinct);
  counted = λ txn. ground (arith, h.counted txn, h.counted r.txn_id);
}

load_row-IsLoaded : (u : Setup) (r : Row) (l : Loaded) → IsLoaded l → IsLoaded (load_row u r l)
unfolding load_row
load_row-IsLoaded u r l h =
    branches IsLoaded (r.action_type == 1) h
      (elim (find_back-cases u.batched r.txn_id (target_of u r) r.lock_type l.entries) [
        | inl (lost, absent) ↦ rw lost (add_entry-IsLoaded u r l absent h)
        | inr (es', found, same) ↦ rw found (record {
          distinct = subst IsDistinct (sym same) h.distinct;
          counted = λ txn. h.counted txn ∙ ap (requests txn) (sym same);
        })
      ])

-- Loading rows onto what is loaded keeps it so that, among entries of a transaction that stand
-- together, no lock occurs twice, and `locks_each_txn` is the number of requests of each
-- transaction.
pub get_traces-IsLoaded :
    (u : Setup) (rows : List Row) (l : Loaded) → IsLoaded l → IsLoaded (get_traces u rows l)
unfolding get_traces
get_traces-IsLoaded u [] l h = h
get_traces-IsLoaded u (r ∷ rows) l h =
    get_traces-IsLoaded u rows (load_row u r l) (load_row-IsLoaded u r l h)
