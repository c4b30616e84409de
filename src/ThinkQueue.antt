-- ===== src/ThinkQueue.antt =====
-- dpdk_code/lock_server_code/think_queue.c: the grants that a client keeps for its think time before
-- it releases them.
pub mod Fifo
use net_lock.Common.{ℕ, Option, none, some}
use net_lock.Linked
use net_lock.Linked.{Node, Handle, Cmd, Outcome, pure, ◌>>=◌}

-- What a `ThinkQueueNode` holds beside its `next`, less `ip_src` and `timestamp`, which nothing
-- sets or reads.
pub record ThinkQueueNode : Type 0 where
  pub mode : ℕ
  pub client_id : ℕ
  pub lock_id : ℕ
  pub txn_id : ℕ
  pub grant_time : ℕ

-- The values that `think_dequeue` stores through its pointers.
pub record Dequeued : Type 0 where
  pub mode : ℕ
  pub client_id : ℕ
  pub lock_id : ℕ
  pub txn_id : ℕ

unfoldable pub dequeued_of : ThinkQueueNode → Dequeued
dequeued_of n = record {
  mode = n.mode;
  client_id = n.client_id;
  lock_id = n.lock_id;
  txn_id = n.txn_id;
}

unfoldable pub think_queue_init : Handle
unfolding Linked.init
think_queue_init = Linked.init

unfoldable pub think_enqueue :
    (fresh : ℕ)
    → Handle
    → (mode lock_id txn_id client_id grant_time : ℕ) → Cmd ThinkQueueNode (Outcome × Handle)
unfolding Linked.enqueue
think_enqueue fresh q mode lock_id txn_id client_id grant_time =
    Linked.enqueue fresh
      (record {
        mode = mode;
        client_id = client_id;
        lock_id = lock_id;
        txn_id = txn_id;
        grant_time = grant_time;
      })
      q

abbrev pub store_outputs :
    Option ThinkQueueNode × Handle → Cmd ThinkQueueNode (Option Dequeued × Handle)
store_outputs (none, q) = pure (none, q)
store_outputs (some n, q) = pure (some (dequeued_of n), q)

unfoldable pub think_dequeue :
    (Node ThinkQueueNode → Option (Node ThinkQueueNode))
    → Handle
    → Cmd ThinkQueueNode (Option Dequeued × Handle)
unfolding Linked.dequeue dequeued_of
think_dequeue after_free q = Linked.dequeue after_free q >>= store_outputs

unfoldable pub think_queue_clear :
    (Node ThinkQueueNode → Option (Node ThinkQueueNode)) → Handle → Cmd ThinkQueueNode Handle
unfolding Linked.clear
think_queue_clear after_free q = Linked.clear after_free q

unfoldable pub think_get_queue_size : Option Handle → ℕ
unfolding Linked.get_size
think_get_queue_size q = Linked.get_size q
