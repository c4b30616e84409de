-- ===== src/Traces/Tests.antt =====
-- Three rows of transaction 1: lock 5 shared, lock 5 exclusive, lock 6 exclusive.
use net_lock.Client.{max_lock_num}
use net_lock.Client.Visit.{Trace, lock_id_of}
use net_lock.Traces.Modes.{mode_at, mode_after, load_row-mode_at}
use net_lock.Traces.Bounds.{get_traces-lock_id_of}
use net_lock.Common.{ℕ, All, inr, arith, ◌<◌, ◌+◌, ◌≡◌, some, refl, [], ◌∷◌, false}
use net_lock.Traces.{Row, Setup, Entry, Loaded, load_row, get_traces, target_of}

abbrev setup : Setup
setup = record { uniform = false; batched = false; batch_map = λ n. n }

abbrev row : (target lock_type : ℕ) → Row
row target lock_type = record {
  txn_id = 1;
  action_type = 0;
  target_lm_id = 0;
  target_obj_idx = target;
  lock_type = lock_type;
  random = 0;
}

abbrev nothing : Loaded
nothing = record { entries = []; locks = λ _. 0 }

rows_count : (get_traces setup (row 4 1 ∷ row 4 2 ∷ row 5 2 ∷ []) nothing).locks 1 ≡ 2
unfolding get_traces
rows_count = refl

abbrev shared_entry : Entry
shared_entry = record {
  txn_id = 1;
  action_type = 0;
  target_lm_id = 0;
  target_obj_idx = 5;
  lock_type = 0;
}

abbrev shared_five : Loaded
shared_five = record { entries = shared_entry ∷ []; locks = λ _. 1 }

-- A transaction that has lock 5 shared and then wants it exclusively.
load_row-mode_at_example :
    (mode_at 1 (target_of setup (row 4 2)) (load_row setup (row 4 2) shared_five).entries
      ≡ some
          (mode_after setup (row 4 2) (mode_at 1 (target_of setup (row 4 2)) shared_five.entries)))
    × (mode_at 1 6 (load_row setup (row 4 2) shared_five).entries ≡ mode_at 1 6 shared_five.entries)
unfolding target_of
load_row-mode_at_example =
    load_row-mode_at setup (row 4 2) shared_five 6 (omega arith) (omega arith)

-- It still has the lock shared.
stays_shared : mode_at 1 5 (load_row setup (row 4 2) shared_five).entries ≡ some 0
unfolding load_row
stays_shared = refl

-- Objects up to 3 have locks of their own, and two each of the others share one.
abbrev grouped : Trace
grouped = record {
  len = λ _. 2;
  txn_id = λ _ _. 1;
  action_type = λ _ _. 0;
  target_obj_idx = λ _ i. i + 5;
  lock_type = λ _ _. 0;
  extensive_locks = 3;
  obj_per_lock = 2;
}

get_traces-lock_id_of_example :
    All
      (λ (e : Entry). lock_id_of grouped e.target_obj_idx < max_lock_num)
      (get_traces setup (row 4 1 ∷ row 5 2 ∷ []) nothing).entries
get_traces-lock_id_of_example =
    get_traces-lock_id_of setup (row 4 1 ∷ row 5 2 ∷ []) (λ _. 0) grouped (omega arith)
      (inr (omega arith), (inr (omega arith), tt))
