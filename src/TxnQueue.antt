-- ===== src/TxnQueue.antt =====
-- dpdk_code/lock_server_code/txn_queue.c: the locks that a client holds for one transaction, in the
-- order of their grants.
pub mod Fifo
mod Tests
use net_lock.Common.{ℕ, Option, none, some}
use net_lock.Linked
use net_lock.Linked.{Node, Handle, Cmd, Outcome, pure, ◌>>=◌}

-- What a `TXNQueueNode` holds beside its `next`.
pub record TxnQueueNode : Type 0 where
  pub mode : ℕ
  pub op_type : ℕ
  pub lock_id : ℕ

-- The values that `txn_dequeue` stores through its pointers.
pub record Dequeued : Type 0 where
  pub mode : ℕ
  pub lock_id : ℕ

unfoldable pub dequeued_of : TxnQueueNode → Dequeued
dequeued_of n = record { mode = n.mode; lock_id = n.lock_id }

unfoldable pub txn_queue_init : Handle
unfolding Linked.init
txn_queue_init = Linked.init

unfoldable pub txn_enqueue :
    (fresh : ℕ) → Handle → (mode opt lock_id : ℕ) → Cmd TxnQueueNode (Outcome × Handle)
unfolding Linked.enqueue
txn_enqueue fresh q mode opt lock_id =
    Linked.enqueue fresh (record { mode = mode; op_type = opt; lock_id = lock_id }) q

abbrev pub store_outputs :
    Option TxnQueueNode × Handle → Cmd TxnQueueNode (Option Dequeued × Handle)
store_outputs (none, q) = pure (none, q)
store_outputs (some n, q) = pure (some (dequeued_of n), q)

unfoldable pub txn_dequeue :
    (Node TxnQueueNode → Option (Node TxnQueueNode))
    → Handle
    → Cmd TxnQueueNode (Option Dequeued × Handle)
unfolding Linked.dequeue dequeued_of
txn_dequeue after_free q = Linked.dequeue after_free q >>= store_outputs

unfoldable pub txn_queue_clear :
    (Node TxnQueueNode → Option (Node TxnQueueNode)) → Handle → Cmd TxnQueueNode Handle
unfolding Linked.clear
txn_queue_clear after_free q = Linked.clear after_free q

unfoldable pub txn_get_queue_size : Option Handle → ℕ
unfolding Linked.get_size
txn_get_queue_size q = Linked.get_size q
