-- ===== src/TxnQueue/Fifo.antt =====
-- The locks of a transaction in memory: added at the end, and all given up by `txn_queue_clear`.
use net_lock.Common.{ℕ, ◌≡◌, ◌≢◌, [], ◌∷◌, ◌++◌, Option, some, ◌∙◌}
use net_lock.Linked.{Node, Memory, enqueued}
use net_lock.Linked.Cells.{Cells, Off, handle_of, Holds, SameOff}
use net_lock.Linked.Enqueue.{enqueue-append}
use net_lock.Linked.Clear.{Freed, clear-Freed}
use net_lock.TxnQueue.{TxnQueueNode, txn_enqueue, txn_queue_clear}

pub granted : (mode opt lock_id : ℕ) → TxnQueueNode
granted mode opt lock_id = record { mode = mode; op_type = opt; lock_id = lock_id }

-- A grant is added behind those before it, and a clear then frees every node of the list, leaves
-- the empty list, and writes to no other memory, whatever the allocator does to a freed node.
pub txn_queue_clear-txn_enqueue :
    (after_free : Node TxnQueueNode → Option (Node TxnQueueNode)) (p mode opt lock_id : ℕ)
    (m : Memory TxnQueueNode) (xs : Cells TxnQueueNode)
    → p ≢ 0
    → Off p xs
    → Holds m xs
    → let new : ℕ × TxnQueueNode = (p, granted mode opt lock_id) in
      (m1 m2 : Memory TxnQueueNode) × (txn_enqueue p (handle_of xs) mode opt lock_id m
        ≡ some ((enqueued, handle_of (xs ++ new ∷ [])), m1))
      × Holds m1 (xs ++ new ∷ [])
      × (txn_queue_clear after_free (handle_of (xs ++ new ∷ [])) m1
          ≡ some (handle_of {A = TxnQueueNode} [], m2))
      × Freed after_free m2 (xs ++ new ∷ [])
      × SameOff (xs ++ new ∷ []) m m2
unfolding txn_enqueue txn_queue_clear granted
txn_queue_clear-txn_enqueue after_free p mode opt lock_id m xs p_pos off h =
    let new : ℕ × TxnQueueNode = (p, granted mode opt lock_id) in
    let (m1, added, holds, same) = enqueue-append p new.1 p_pos m xs h off in
    let (m2, cleared, freed, same') = clear-Freed after_free m1 (xs ++ new ∷ []) holds in
    (m1, m2, added, holds, cleared, freed, λ a out. same' a out ∙ same a out)
