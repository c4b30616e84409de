-- ===== src/Traces.antt =====
-- The loop of `get_traces` in dpdk_code/client_code/include/new_order.h: the rows of a trace file
-- become the requests of a client, at most one of a transaction for each lock.
pub mod Requests
pub mod BatchMap
pub mod Files
pub mod Bounds
pub mod Modes
mod Tests
use net_lock.Common.{
  ℕ, ◌+◌, ◌%◌, ◌^◌, List, [], ◌∷◌, Option, none, some, Bool, true, false, ◌==◌, ◌||◌, ◌&&◌,
  if◌then◌else◌, write,
}

-- What `fscanf` reads of a line, and what `rand` returns in its round.
pub record Row : Type 0 where
  pub txn_id : ℕ
  pub action_type : ℕ
  pub target_lm_id : ℕ
  pub target_obj_idx : ℕ
  pub lock_type : ℕ
  pub random : ℕ

-- The settings: `benchmark` is TPCC_UNIFORMBENCHMARK, `task_id` is 'g', and `batch_map`.
pub record Setup : Type 0 where
  pub uniform : Bool
  pub batched : Bool
  pub batch_map : ℕ → ℕ

-- The five arrays at one index.
pub record Entry : Type 0 where
  pub txn_id : ℕ
  pub action_type : ℕ
  pub target_lm_id : ℕ
  pub target_obj_idx : ℕ
  pub lock_type : ℕ

-- The arrays up to `len`, the last entry first, and `locks_each_txn` of the client.
pub record Loaded : Type 0 where
  pub entries : List Entry
  pub locks : ℕ → ℕ

unfoldable pub target_of : Setup → Row → ℕ
target_of u r =
    if u.uniform
    then r.random % 7000000 + 1
    else ((if u.batched then u.batch_map r.target_obj_idx else r.target_obj_idx) + 1) % 2 ^ 32

-- A row for a lock that its transaction has: an exclusive one makes the entry exclusive, in batches.
unfoldable pub upgraded : Bool → (lock_type : ℕ) → Entry → Entry
upgraded batched lock_type e = record e {
  lock_type = if batched && ((lock_type == 2) || (lock_type == 9)) then 1 else e.lock_type;
}

abbrev pub and_entry : Entry → Option (List Entry) → Option (List Entry)
and_entry e none = none
and_entry e (some es) = some (e ∷ es)

-- The `while` loop back over the entries of the transaction: `none` if none is for the lock.
unfoldable pub find_back : Bool → (txn_id target lock_type : ℕ) → List Entry → Option (List Entry)
unfolding upgraded
find_back batched txn target lock_type [] = none
find_back batched txn target lock_type (e ∷ es) =
    let before = find_back batched txn target lock_type es in
    if e.txn_id == txn
    then if e.target_obj_idx == target
      then some (upgraded batched lock_type e ∷ es)
      else and_entry e before
    else none

unfoldable pub mode_of : ℕ → ℕ
mode_of lock_type =
    if (lock_type == 7) || (lock_type == 8) || (lock_type == 1)
    then 0
    else if (lock_type == 9) || (lock_type == 2)
    then 1
    else lock_type

unfoldable pub entry_of : Setup → Row → Entry
unfolding target_of mode_of
entry_of u r = record {
  txn_id = r.txn_id;
  action_type = r.action_type;
  target_lm_id = r.target_lm_id;
  target_obj_idx = target_of u r;
  lock_type = mode_of r.lock_type;
}

-- A new entry, counted if it asks for a lock.
unfoldable pub add_entry : Setup → Row → Loaded → Loaded
unfolding entry_of write
add_entry u r l = record {
  entries = entry_of u r ∷ l.entries;
  locks = if r.action_type == 0 then write l.locks r.txn_id (l.locks r.txn_id + 1) else l.locks;
}

-- One round of the loop; releases are passed over.
unfoldable pub load_row : Setup → Row → Loaded → Loaded
unfolding find_back add_entry
load_row u r l =
    if r.action_type == 1
    then l
    else (elim (find_back u.batched r.txn_id (target_of u r) r.lock_type l.entries) [
      | some es ↦ record l { entries = es }
      | none ↦ add_entry u r l
    ])

unfoldable pub get_traces : Setup → List Row → Loaded → Loaded
unfolding load_row
get_traces u [] l = l
get_traces u (r ∷ rows) l = get_traces u rows (load_row u r l)
