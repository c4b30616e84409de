-- ===== src/ThinkQueue/Fifo.antt =====
-- The grants that wait out the think time, in memory: first in, first out.
use net_lock.Common.{ℕ, ◌≡◌, ◌≢◌, refl, ◌∷◌, Option, some}
use net_lock.Linked.{Node, Memory}
use net_lock.Linked.Cells.{Cells, handle_of, Holds}
use net_lock.Linked.Dequeue.{KeepsNext, without_head, dequeue-cons}
use net_lock.ThinkQueue.{ThinkQueueNode, think_dequeue, dequeued_of}

-- On a queue with grants, where a freed node keeps its `next`: `think_dequeue` hands out the
-- oldest grant, leaves the others in order, and writes to no node but the first.
pub think_dequeue-Fifo :
    (after_free : Node ThinkQueueNode → Option (Node ThinkQueueNode)) (m : Memory ThinkQueueNode)
    (x : ℕ × ThinkQueueNode) (xs : Cells ThinkQueueNode)
    → KeepsNext after_free
    → Holds m (x ∷ xs)
    → (think_dequeue after_free (handle_of (x ∷ xs)) m
        ≡ some ((some (dequeued_of x.1), handle_of xs), without_head after_free m x xs))
      × Holds (without_head after_free m x xs) xs
      × ((p : ℕ) → p ≢ x.0 → without_head after_free m x xs p ≡ m p)
unfolding think_dequeue
think_dequeue-Fifo after_free m x xs keeps h =
    let (run, holds, same) = dequeue-cons after_free m x xs keeps h in (rw run refl, holds, same)
