-- ===== src/LockQueue/Tests.antt =====
-- The request queue at a queue of two requests, at addresses 1 and 2.
use net_lock.Common.{ℕ, ◌≡◌, ◌≢◌, refl, [], ◌∷◌, Option, none, some, arith, write}
use net_lock.Linked.{Node, node, Memory, enqueued}
use net_lock.Linked.Cells.{Cells, handle_of, Holds, SameOff}
use net_lock.Linked.Dequeue.{KeepsNext, without_head}
use net_lock.LockQueue.{QueueNode, enqueue, dequeue, dequeued_of}
use net_lock.LockQueue.Fifo.{request, enqueue-Fifo, dequeue-Fifo, dequeue_UseAfterFree}

abbrev old : QueueNode
old = record { mode = 0; client_id = 1; txn_id = 0x0100_0000; ip_src = 10; timestamp = 77 }

abbrev young : QueueNode
young = record { mode = 1; client_id = 2; txn_id = 0x0200_0000; ip_src = 11; timestamp = 78 }

abbrev cells : Cells QueueNode
cells = (1, old) ∷ (2, young) ∷ []

abbrev memory : Memory QueueNode
memory = write (write (λ _. none) 1 (some (node old 2))) 2 (some (node young 0))

memory-Holds : Holds memory cells
unfolding write
memory-Holds =
    ((λ e. omega arith), refl, ((λ e. omega arith), tt), ((λ e. omega arith), refl, tt, tt))

-- An allocator that leaves freed nodes as they are, and one that takes them away.
abbrev lenient : Node QueueNode → Option (Node QueueNode)
lenient n = some n

abbrev strict : Node QueueNode → Option (Node QueueNode)
strict n = none

lenient-KeepsNext : KeepsNext lenient
lenient-KeepsNext n = (n, refl, refl)

enqueue-Fifo_example :
    (m' : Memory QueueNode) × (enqueue 3 (handle_of cells) 0 5 12 79 4 memory
      ≡ some ((enqueued, handle_of ((1, old) ∷ (2, young) ∷ (3, request 0 5 12 79 4) ∷ [])), m'))
    × Holds m' ((1, old) ∷ (2, young) ∷ (3, request 0 5 12 79 4) ∷ [])
    × SameOff ((1, old) ∷ (2, young) ∷ (3, request 0 5 12 79 4) ∷ []) memory m'
enqueue-Fifo_example =
    enqueue-Fifo 3 0 5 12 79 4 memory cells (λ e. omega arith)
      ((λ e. omega arith), ((λ e. omega arith), tt)) memory-Holds

dequeue-Fifo_example :
    (dequeue lenient (handle_of cells) memory
      ≡ some (
        (some (dequeued_of old), handle_of ((2, young) ∷ [])),
        without_head lenient memory (1, old) ((2, young) ∷ []),
      ))
    × Holds (without_head lenient memory (1, old) ((2, young) ∷ [])) ((2, young) ∷ [])
    × ((p : ℕ) → p ≢ 1 → without_head lenient memory (1, old) ((2, young) ∷ []) p ≡ memory p)
dequeue-Fifo_example =
    dequeue-Fifo lenient memory (1, old) ((2, young) ∷ []) lenient-KeepsNext memory-Holds

dequeue_UseAfterFree_example : dequeue strict (handle_of cells) memory ≡ none
dequeue_UseAfterFree_example =
    dequeue_UseAfterFree strict memory (1, old) (2, young) [] (λ n. refl) memory-Holds
