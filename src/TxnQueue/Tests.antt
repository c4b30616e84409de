-- ===== src/TxnQueue/Tests.antt =====
-- The locks of a transaction: a second grant behind a first one, then a clear.
use net_lock.Common.{◌≡◌, refl, [], ◌∷◌, Option, none, some, arith, write}
use net_lock.Linked.{Node, node, Memory, enqueued}
use net_lock.Linked.Cells.{Cells, handle_of, Holds, SameOff}
use net_lock.Linked.Clear.{Freed}
use net_lock.TxnQueue.{TxnQueueNode, txn_enqueue, txn_queue_clear}
use net_lock.TxnQueue.Fifo.{granted, txn_queue_clear-txn_enqueue}

abbrev held : TxnQueueNode
held = record { mode = 1; op_type = 3; lock_id = 5 }

abbrev cells : Cells TxnQueueNode
cells = (1, held) ∷ []

abbrev memory : Memory TxnQueueNode
memory = write (λ _. none) 1 (some (node held 0))

memory-Holds : Holds memory cells
unfolding write
memory-Holds = ((λ e. omega arith), refl, tt, tt)

abbrev gone : Node TxnQueueNode → Option (Node TxnQueueNode)
gone n = none

abbrev two_cells : Cells TxnQueueNode
two_cells = (1, held) ∷ (2, granted 0 2 6) ∷ []

txn_queue_clear-txn_enqueue_example :
    (m1 m2 : Memory TxnQueueNode) × (txn_enqueue 2 (handle_of cells) 0 2 6 memory
      ≡ some ((enqueued, handle_of two_cells), m1))
    × Holds m1 two_cells
    × (txn_queue_clear gone (handle_of two_cells) m1 ≡ some (handle_of {A = TxnQueueNode} [], m2))
    × Freed gone m2 two_cells
    × SameOff two_cells memory m2
txn_queue_clear-txn_enqueue_example =
    txn_queue_clear-txn_enqueue gone 2 0 2 6 memory cells (λ e. omega arith)
      ((λ e. omega arith), tt) memory-Holds
