-- ===== src/LockQueue/Fifo.antt =====
-- The request queue in memory refines a list of requests: first in, first out.
use net_lock.Common.{ℕ, ◌≡◌, ◌≢◌, refl, [], ◌∷◌, ◌++◌, Option, none, some}
use net_lock.Linked.{Node, Memory, enqueued}
use net_lock.Linked.Cells.{Cells, Off, handle_of, Holds, SameOff}
use net_lock.Linked.Enqueue.{enqueue-append}
use net_lock.Linked.Dequeue.{KeepsNext, without_head, dequeue-cons, dequeue-fault}
use net_lock.LockQueue.{QueueNode, enqueue, dequeue, dequeued_of}

pub request : (mode txn_id ip_src_addr timestamp client_id : ℕ) → QueueNode
request mode txn_id ip_src_addr timestamp client_id = record {
  mode = mode;
  client_id = client_id;
  txn_id = txn_id;
  ip_src = ip_src_addr;
  timestamp = timestamp;
}

-- Where `malloc` returns a block `p` that is no node of the queue, `enqueue` succeeds, the new
-- request stands last, and only the new node and the one before it are written.
pub enqueue-Fifo :
    (p mode txn_id ip timestamp client_id : ℕ) (m : Memory QueueNode) (xs : Cells QueueNode)
    → p ≢ 0
    → Off p xs
    → Holds m xs
    → let new : ℕ × QueueNode = (p, request mode txn_id ip timestamp client_id) in
      (m' : Memory QueueNode) × (enqueue p (handle_of xs) mode txn_id ip timestamp client_id m
        ≡ some ((enqueued, handle_of (xs ++ new ∷ [])), m'))
      × Holds m' (xs ++ new ∷ [])
      × SameOff (xs ++ new ∷ []) m m'
unfolding enqueue request
enqueue-Fifo p mode txn_id ip timestamp client_id m xs p_pos off h =
    enqueue-append p _ p_pos m xs h off

-- On a queue with requests, where a freed node keeps its `next`: `dequeue` hands out the oldest
-- request, its transaction number in host order, leaves the others in order, and writes to no
-- node but the first.
pub dequeue-Fifo :
    (after_free : Node QueueNode → Option (Node QueueNode)) (m : Memory QueueNode)
    (x : ℕ × QueueNode) (xs : Cells QueueNode)
    → KeepsNext after_free
    → Holds m (x ∷ xs)
    → (dequeue after_free (handle_of (x ∷ xs)) m
        ≡ some ((some (dequeued_of x.1), handle_of xs), without_head after_free m x xs))
      × Holds (without_head after_free m x xs) xs
      × ((p : ℕ) → p ≢ x.0 → without_head after_free m x xs p ≡ m p)
unfolding dequeue
dequeue-Fifo after_free m x xs keeps h =
    let (run, holds, same) = dequeue-cons after_free m x xs keeps h in (rw run refl, holds, same)

-- Where freed nodes cannot be read, `dequeue` stops the program on every queue of two or more.
pub dequeue_UseAfterFree :
    (after_free : Node QueueNode → Option (Node QueueNode)) (m : Memory QueueNode)
    (x y : ℕ × QueueNode) (ys : Cells QueueNode)
    → ((n : Node QueueNode) → after_free n ≡ none)
    → Holds m (x ∷ y ∷ ys)
    → dequeue after_free (handle_of (x ∷ y ∷ ys)) m ≡ none
unfolding dequeue
dequeue_UseAfterFree after_free m x y ys lost h = rw (dequeue-fault after_free m x y ys lost h) refl
