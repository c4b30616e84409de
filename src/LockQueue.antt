-- ===== src/LockQueue.antt =====
-- dpdk_code/lock_server_code/lock_queue.c: the queue of requests that the lock server keeps for
-- each lock. `enqueue` stores the transaction number as it came, in network order, and `dequeue`
-- hands it out in host order.
pub mod Fifo
mod Tests
use net_lock.Common.{ℕ, Option, none, some}
use net_lock.Linked
use net_lock.Linked.{Node, Handle, Cmd, Outcome, pure, ◌>>=◌}
use net_lock.Wire.{ntohl}

-- What a `QueueNode` holds beside its `next`.
pub record QueueNode : Type 0 where
  pub mode : ℕ
  pub client_id : ℕ
  pub txn_id : ℕ
  pub ip_src : ℕ
  pub timestamp : ℕ

-- The values that `dequeue` stores through its pointers.
pub record Dequeued : Type 0 where
  pub mode : ℕ
  pub client_id : ℕ
  pub txn_id : ℕ
  pub ip_src : ℕ
  pub timestamp : ℕ

unfoldable pub dequeued_of : QueueNode → Dequeued
unfolding ntohl
dequeued_of n = record {
  mode = n.mode;
  client_id = n.client_id;
  txn_id = ntohl n.txn_id;
  ip_src = n.ip_src;
  timestamp = n.timestamp;
}

unfoldable pub queue_init : Handle
unfolding Linked.init
queue_init = Linked.init

unfoldable pub enqueue :
    (fresh : ℕ)
    → Handle
    → (mode txn_id ip_src_addr timestamp client_id : ℕ) → Cmd QueueNode (Outcome × Handle)
unfolding Linked.enqueue
enqueue fresh q mode txn_id ip_src_addr timestamp client_id =
    Linked.enqueue fresh
      (record {
        mode = mode;
        client_id = client_id;
        txn_id = txn_id;
        ip_src = ip_src_addr;
        timestamp = timestamp;
      })
      q

abbrev pub store_outputs : Option QueueNode × Handle → Cmd QueueNode (Option Dequeued × Handle)
store_outputs (none, q) = pure (none, q)
store_outputs (some n, q) = pure (some (dequeued_of n), q)

unfoldable pub dequeue :
    (Node QueueNode → Option (Node QueueNode)) → Handle → Cmd QueueNode (Option Dequeued × Handle)
unfolding Linked.dequeue dequeued_of
dequeue after_free q = Linked.dequeue after_free q >>= store_outputs

unfoldable pub queue_clear :
    (Node QueueNode → Option (Node QueueNode)) → Handle → Cmd QueueNode Handle
unfolding Linked.clear
queue_clear after_free q = Linked.clear after_free q

unfoldable pub get_queue_size : Option Handle → ℕ
unfolding Linked.get_size
get_queue_size q = Linked.get_size q
