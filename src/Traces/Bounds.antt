-- ===== src/Traces/Bounds.antt =====
-- The locks that a loaded trace asks for.
use net_lock.Common.{
  ℕ, ◌+◌, ◌-◌, ◌/◌, ◌<◌, ◌≤◌, ◌≡◌, ◌⊎◌, inl, inr, sym, subst, List, [], ◌∷◌, map, true, ◌==◌, leb,
  if◌then◌else◌, Bool-cases, branches, All, arith,
}
use native.Mathlib.Nat.{div-le_self}
use net_lock.Client.{max_lock_num}
use net_lock.Client.Visit.{Trace, lock_id_of}
use net_lock.Traces.{
  Row, Setup, Entry, Loaded, target_of, entry_of, add_entry, load_row, get_traces,
}
use net_lock.Traces.Requests.{Key, key_of, find_back-cases}

abbrev IsLow : List Key → Type 0
IsLow = All (λ (k : Key). k.target < max_lock_num)

-- What a row asks for, if it is not drawn by `rand`, is within the arrays.
abbrev pub IsWithin : Setup → Row → Type 0
IsWithin u r =
    (if u.batched then u.batch_map r.target_obj_idx else r.target_obj_idx) + 1 < max_lock_num

-- Objects are grouped into no more locks than there are objects.
lock_id_of-le : (w : Trace) (obj : ℕ) → lock_id_of w obj ≤ obj
unfolding lock_id_of
lock_id_of-le w obj = elim (Bool-cases (leb obj w.extensive_locks)) [
  | inl own ↦ rw own (omega arith)
  | inr grouped ↦
      let few : (obj - w.extensive_locks - 1) / w.obj_per_lock ≤ obj - w.extensive_locks - 1 =
        div-le_self (obj - w.extensive_locks - 1) w.obj_per_lock in
      let behind : w.extensive_locks < obj = ground (arith, grouped) in
      rw grouped (omega (arith, few, behind))
]

target_of-low :
    (u : Setup) (r : Row) → (u.uniform ≡ true) ⊎ IsWithin u r → target_of u r < max_lock_num
unfolding target_of
target_of-low u r (inl drawn) = rw drawn (omega arith)
target_of-low u r (inr within) = elim (Bool-cases u.uniform) [
  | inl drawn ↦ rw drawn (omega arith)
  | inr read ↦ rw read (omega (arith, within))
]

load_row-IsLow :
    (u : Setup) (r : Row) (l : Loaded)
    → (u.uniform ≡ true) ⊎ IsWithin u r
    → IsLow (map key_of l.entries)
    → IsLow (map key_of (load_row u r l).entries)
unfolding load_row add_entry entry_of
load_row-IsLow u r l within h =
    branches (λ (l' : Loaded). IsLow (map key_of l'.entries)) (r.action_type == 1) h
      (elim (find_back-cases u.batched r.txn_id (target_of u r) r.lock_type l.entries) [
        | inl (lost, _) ↦ rw lost (target_of-low u r within, h)
        | inr (es, found, same) ↦ rw found (subst IsLow (sym same) h)
      ])

get_traces-IsLow :
    (u : Setup) (rows : List Row) (l : Loaded)
    → All (λ (r : Row). (u.uniform ≡ true) ⊎ IsWithin u r) rows
    → IsLow (map key_of l.entries)
    → IsLow (map key_of (get_traces u rows l).entries)
unfolding get_traces
get_traces-IsLow u [] l within h = h
get_traces-IsLow u (r ∷ rows) l within h =
    get_traces-IsLow u rows (load_row u r l) within.1 (load_row-IsLow u r l within.0 h)

locks_low :
    (w : Trace) (es : List Entry)
    → IsLow (map key_of es)
    → All (λ (e : Entry). lock_id_of w e.target_obj_idx < max_lock_num) es
locks_low w [] h = tt
locks_low w (e ∷ es) h =
    let le = lock_id_of-le w e.target_obj_idx in (omega (arith, le, h.0), locks_low w es h.1)

-- However a client groups objects into locks, at least one of them in each, every lock of the trace that
-- `get_traces` loads is within the arrays, where the objects are drawn by `rand`, or each row is for
-- an object, or in batches for a batch, below MAX_LOCK_NUM - 1.
pub get_traces-lock_id_of :
    (u : Setup) (rows : List Row) (locks : ℕ → ℕ) (w : Trace)
    → 0 < w.obj_per_lock
    → All (λ (r : Row). (u.uniform ≡ true) ⊎ IsWithin u r) rows
    → All
        (λ (e : Entry). lock_id_of w e.target_obj_idx < max_lock_num)
        (get_traces u rows (record { entries = []; locks = locks })).entries
get_traces-lock_id_of u rows locks w divides within =
    locks_low w _ (get_traces-IsLow u rows (record { entries = []; locks = locks }) within tt)
