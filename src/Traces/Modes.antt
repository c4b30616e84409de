-- ===== src/Traces/Modes.antt =====
-- In which mode a transaction has a lock when its rows are loaded.
use net_lock.Common.{
  ℕ, ◌≡◌, ◌≢◌, ◌⊎◌, inl, inr, refl, sym, List, [], ◌∷◌, Option, none, some, Bool, false, ◌==◌, ◌&&◌,
  ◌||◌, if◌then◌else◌, Bool-cases, eq→==, ne→==, ==→eq, ap, subst,
}
use net_lock.Traces.{
  Row, Setup, Entry, Loaded, upgraded, find_back, mode_of, entry_of, target_of, add_entry, load_row,
}

-- The mode of the lock among the entries of the transaction that stand at the end of the trace.
abbrev pub mode_at : (txn_id target : ℕ) → List Entry → Option ℕ
mode_at txn target [] = none
mode_at txn target (e ∷ es) =
    if e.txn_id == txn
    then (if e.target_obj_idx == target then some e.lock_type else mode_at txn target es)
    else none

-- The mode of an entry when the transaction wants its lock again.
abbrev pub again : (batched : Bool) → (lock_type mode : ℕ) → ℕ
again batched lock_type mode = if batched && ((lock_type == 2) || (lock_type == 9)) then 1 else mode

-- The mode behind a row, by the one before it.
abbrev pub mode_after : Setup → Row → Option ℕ → ℕ
mode_after u r none = mode_of r.lock_type
mode_after u r (some mode) = again u.batched r.lock_type mode

-- What `find_back` does to the modes of the transaction.
record Found (b : Bool) (txn target lock_type : ℕ) (es es' : List Entry) : Type 0 where
  mode : ℕ
  before : mode_at txn target es ≡ some mode
  behind : mode_at txn target es' ≡ some (again b lock_type mode)
  others : (k : ℕ) → k ≢ target → mode_at txn k es' ≡ mode_at txn k es

find_back-Found :
    (b : Bool) (txn target lock_type : ℕ) (es : List Entry)
    → ((find_back b txn target lock_type es ≡ none) × (mode_at txn target es ≡ none))
      ⊎ ((es' : List Entry) × (find_back b txn target lock_type es ≡ some es')
          × Found b txn target lock_type es es')
unfolding find_back upgraded
find_back-Found b txn target lock_type [] = inl (refl, refl)
find_back-Found b txn target lock_type (e ∷ es) = elim (Bool-cases (e.txn_id == txn)) [
  | inr other ↦ inl (rw other refl, rw other refl)
  | inl mine ↦ elim (Bool-cases (e.target_obj_idx == target)) [
    | inl here ↦ inr (
      upgraded b lock_type e ∷ es,
      rw (mine, here) refl,
      record {
        mode = e.lock_type;
        before = rw (mine, here) refl;
        behind = rw (mine, here) refl;
        others = λ k ne.
            let differs : (e.target_obj_idx == k) ≡ false =
              subst (λ t. (t == k) ≡ false) (sym (==→eq e.target_obj_idx target here))
                (ne→== target k (λ p. ne (sym p))) in
            rw (mine, differs) refl;
      },
    )
    | inr further ↦ elim (find_back-Found b txn target lock_type es) [
      | inl (lost, absent) ↦
          inl (rw (find_back, mine, further, lost) refl, rw (mine, further) absent)
      | inr (es', found, f) ↦ inr (
        e ∷ es',
        rw (find_back, mine, further, found) refl,
        record {
          mode = f.mode;
          before = rw (mine, further) f.before;
          behind = rw (mine, further) f.behind;
          others = λ k ne. rw mine (
              ap (λ rest. if e.target_obj_idx == k then some e.lock_type else rest)
                (f.others k ne));
        },
      )
    ]
  ]
]

-- What the last entries of the transaction of a row that is no release say of its locks, before and
-- behind the row: if it did not have the row's lock, it has it in the row's mode; if it had it, it has
-- it in the same mode, but in batches exclusively if the row wants it so; and it has every other
-- lock as before.
pub load_row-mode_at :
    (u : Setup) (r : Row) (l : Loaded) (k : ℕ)
    → r.action_type ≢ 1
    → k ≢ target_of u r
    → (mode_at r.txn_id (target_of u r) (load_row u r l).entries
        ≡ some (mode_after u r (mode_at r.txn_id (target_of u r) l.entries)))
      × (mode_at r.txn_id k (load_row u r l).entries ≡ mode_at r.txn_id k l.entries)
unfolding load_row add_entry entry_of
load_row-mode_at u r l k asks ne =
    let request = ne→== r.action_type 1 asks in
    let mine = eq→== r.txn_id r.txn_id refl in
    let own = eq→== (target_of u r) (target_of u r) refl in
    let differs = ne→== (target_of u r) k (λ p. ne (sym p)) in
    elim (find_back-Found u.batched r.txn_id (target_of u r) r.lock_type l.entries) [
      | inl (lost, absent) ↦
          (rw (request, lost, mine, own, absent) refl, rw (request, lost, mine, differs) refl)
      | inr (es', found, f) ↦
          (rw (request, found, f.before) f.behind, rw (request, found) (f.others k ne))
    ]
