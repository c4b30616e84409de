-- ===== src/Client/Transaction.antt =====
-- `np_client_tx_write_loop` of dpdk_code/client_code/client.c: what it does with the transaction
-- that it has sent all requests of.
pub mod Ledger
use net_lock.Common.{
  ℕ, zero, suc, ◌+◌, ◌-◌, ◌%◌, ◌^◌, List, [], ◌∷◌, ◌++◌, map, Option, none, some, Bool, true, false,
  ◌==◌, ltb, if◌then◌else◌, length,
}
use net_lock.Wire.{Env, Packet, grant_lock_from_server}
use net_lock.TxnQueue.{TxnQueueNode}
use net_lock.Client.{Txn, Config, release}

-- The times that the loop reads: `cur_tsc`, the two of `expire_time`, and two calls of `rte_rdtsc`.
pub record Clock : Type 0 where
  pub cur_tsc : ℕ
  pub expire_time : ℕ → ℕ
  pub begin_now : ℕ
  pub finish_now : ℕ

-- `ptr = ptr->next` so many times; `none` is a read through a null pointer.
unfoldable pub skip_loop : ℕ → List TxnQueueNode → Option (List TxnQueueNode)
skip_loop zero ptr = some ptr
skip_loop (suc k) [] = none
skip_loop (suc k) (n ∷ ptr) = skip_loop k ptr

abbrev pub and_node : TxnQueueNode → Option (List TxnQueueNode) → Option (List TxnQueueNode)
and_node n none = none
and_node n (some ns) = some (n ∷ ns)

-- The nodes that the loop of the releases visits.
unfoldable pub visit_loop : ℕ → List TxnQueueNode → Option (List TxnQueueNode)
visit_loop zero ptr = some []
visit_loop (suc k) [] = none
visit_loop (suc k) (n ∷ ptr) = and_node n (visit_loop k ptr)

-- The locks granted and not yet released: those from `txn_s` to `txn_r`.
unfoldable pub to_release : Txn → Option (List TxnQueueNode)
unfolding skip_loop visit_loop
to_release t = elim (skip_loop t.txn_s t.queue) [
  | none ↦ none
  | some ptr ↦ visit_loop (t.txn_r - t.txn_s) ptr
]

unfoldable pub release_of : Env → Config → (txn_id cid : ℕ) → TxnQueueNode → Packet
unfolding release
release_of env cfg txn_id cid n = release env cfg n.mode n.lock_id txn_id cid

unfoldable pub from_server : List TxnQueueNode → ℕ
from_server [] = 0
from_server (n ∷ ns) = (if n.op_type == grant_lock_from_server then 1 else 0) + from_server ns

-- What comes of it: the transaction, the releases sent, the grants counted by who gave them, the
-- index into `expire_time`, and whether the loop goes on to the next client.
pub record Settled : Type 0 where
  pub txn : Txn
  pub out : List Packet
  pub server_grants : ℕ
  pub switch_grants : ℕ
  pub expire_idx : ℕ
  pub waits : Bool

-- All locks are held: they are released, and the transaction is over.
unfoldable pub complete :
    Env → Config → (txn_id cid expire_idx : ℕ) → Txn → List TxnQueueNode → Settled
unfolding release_of from_server
complete env cfg txn_id cid expire_idx t ns = record {
  txn = record t { txn_r = 0; queue = []; txn_s = 0; finished = true };
  out = map (release_of env cfg txn_id cid) ns;
  server_grants = if t.deadlocked then 0 else from_server ns;
  switch_grants = if t.deadlocked then 0 else length ns - from_server ns;
  expire_idx = expire_idx;
  waits = false;
}

-- Locks are missing for too long: the held ones are released.
unfoldable pub give_up : Env → Config → Clock → (txn_id cid : ℕ) → Txn → List TxnQueueNode → Settled
unfolding release_of
give_up env cfg clock txn_id cid t ns = record {
  txn = record t {
    deadlocked = true;
    num_retries = if ltb t.txn_s t.txn_r then t.num_retries + 1 else t.num_retries;
    txn_s = t.txn_r;
    refresh_time = clock.cur_tsc;
  };
  out = map (release_of env cfg txn_id cid) ns;
  server_grants = 0;
  switch_grants = 0;
  expire_idx = 1;
  waits = true;
}

abbrev pub idle : (expire_idx : ℕ) (waits : Bool) → Txn → Settled
idle expire_idx waits t = record {
  txn = t;
  out = [];
  server_grants = 0;
  switch_grants = 0;
  expire_idx = expire_idx;
  waits = waits;
}

unfoldable pub settle : Env → Config → Clock → (txn_id cid expire_idx : ℕ) → Txn → Option Settled
unfolding to_release complete give_up
settle env cfg clock txn_id cid expire_idx t =
    if t.txn_r == t.locks
    then elim (to_release t) [
      | none ↦ none
      | some ns ↦ some (complete env cfg txn_id cid expire_idx t ns)
    ]
    else if ltb t.txn_r t.locks
    then if ltb ((t.refresh_time + clock.expire_time expire_idx) % 2 ^ 64) clock.cur_tsc
      then elim (to_release t) [
        | none ↦ none
        | some ns ↦ some (give_up env cfg clock txn_id cid t ns)
      ]
      else some (idle expire_idx true t)
    else some (idle expire_idx false t)
