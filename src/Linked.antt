-- ===== src/Linked.antt =====
-- The linked lists that dpdk_code/lock_server_code/lock_queue.c, txn_queue.c and think_queue.c
-- keep, over an explicit memory. The three files have the same list code around different nodes,
-- so the code below takes the type of a node's contents as a parameter.
pub mod Access
pub mod Cells
pub mod Enqueue
pub mod Dequeue
pub mod Clear
use net_lock.Common.{
  ℕ, zero, suc, ◌+◌, ◌-◌, Option, none, some, Bool, ◌==◌, ltb, if◌then◌else◌, write,
}

-- A node: its contents and its `next` pointer.
pub record Node (A : Type 0) : Type 0 where
  pub contents : A
  pub next : ℕ

abbrev pub node : {A : Type 0} → A → ℕ → Node A
node v p = record { contents = v; next = p }

-- What stands at an address; the null pointer is 0.
abbrev pub Memory : Type 0 → Type 0
Memory A = ℕ → Option (Node A)

-- `none` is a read or a write through a pointer that leads to no node.
abbrev pub Cmd : Type 0 → Type 0 → Type 0
Cmd A X = Memory A → Option (X × Memory A)

abbrev pub pure : {A X : Type 0} → X → Cmd A X
pure x m = some (x, m)

module _ {A X Y : Type 0} where
  abbrev pub continue_with : Option (X × Memory A) → (X → Cmd A Y) → Option (Y × Memory A)
  continue_with none k = none
  continue_with (some (x, m)) k = k x m

  infixl 5 ◌>>=◌
  abbrev pub ◌>>=◌ : Cmd A X → (X → Cmd A Y) → Cmd A Y
  c >>= k = λ m. continue_with (c m) k

abbrev pub fetch : {A : Type 0} → Option (Node A) → Cmd A (Node A)
fetch none m = none
fetch (some n) m = some (n, m)

module _ {A : Type 0} where
  unfoldable pub load : ℕ → Cmd A (Node A)
  load p m = if p == 0 then none else fetch (m p) m

  -- Fills a block that `malloc` has returned.
  unfoldable pub store : ℕ → Node A → Cmd A (Unit {0})
  unfolding write
  store p n m = some (tt, write m p (some n))

  unfoldable pub set_next : ℕ → ℕ → Cmd A (Unit {0})
  unfolding load store
  set_next p q = do n ← load p; store p (node n.contents q)

  -- What a node reads as once it has been freed is the allocator's, so it is a parameter.
  unfoldable pub free : (Node A → Option (Node A)) → ℕ → Cmd A (Unit {0})
  unfolding load write
  free after_free p = do n ← load p; λ m. some (tt, write m p (after_free n))

-- `QueueList`, `TXNQueueList`, `ThinkQueueList`.
pub record Handle : Type 0 where
  pub size_of_queue : ℕ
  pub head : ℕ
  pub tail : ℕ

abbrev pub handle : ℕ → ℕ → ℕ → Handle
handle n h t = record { size_of_queue = n; head = h; tail = t }

pub data Outcome : Type 0 where
  enqueued enqueue_error : Outcome

unfoldable pub init : Handle
init = handle 0 0 0

module _ {A : Type 0} where
  -- The end of each `enqueue`: link the new node behind the tail.
  unfoldable pub link_tail : ℕ → Handle → Cmd A Handle
  unfolding set_next
  link_tail p q =
      if q.size_of_queue == 0
      then pure (handle (q.size_of_queue + 1) p p)
      else do _ ← set_next q.tail p; pure (handle (q.size_of_queue + 1) q.head p)

  -- `fresh` is what `malloc` returns, 0 if there is no memory.
  unfoldable pub enqueue : (fresh : ℕ) → A → Handle → Cmd A (Outcome × Handle)
  unfolding store link_tail
  enqueue fresh v q =
      if fresh == 0
      then pure (enqueue_error, q)
      else do _ ← store fresh (node v 0); q' ← link_tail fresh q; pure (enqueued, q')

  -- The last part of `dequeue`, after `free(temp)`: `q->head->next` reads the freed node.
  unfoldable pub drop_head : Handle → A → Cmd A (Option A × Handle)
  unfolding load
  drop_head q v =
      if ltb 1 q.size_of_queue
      then (do again ← load q.head; pure (some v, handle (q.size_of_queue - 1) again.next q.tail))
      else pure (some v, handle (q.size_of_queue - 1) 0 0)

  unfoldable pub take_head : (Node A → Option (Node A)) → Handle → Cmd A (Option A × Handle)
  unfolding load free drop_head
  take_head after_free q = do
    temp ← load q.head
    _ ← free after_free q.head
    drop_head q temp.contents

  -- The contents of the removed node; `none` if the output variables are left alone.
  unfoldable pub dequeue : (Node A → Option (Node A)) → Handle → Cmd A (Option A × Handle)
  unfolding take_head
  dequeue after_free q = if ltb 0 q.size_of_queue then take_head after_free q else pure (none, q)

  -- The loop of `queue_clear`, one round for each node that `size_of_queue` counts.
  unfoldable pub clear_loop : (Node A → Option (Node A)) → ℕ → ℕ → Cmd A (Unit {0})
  unfolding load free
  clear_loop after_free zero p = pure tt
  clear_loop after_free (suc n) p = do
    temp ← load p
    _ ← free after_free p
    clear_loop after_free n temp.next

  unfoldable pub clear : (Node A → Option (Node A)) → Handle → Cmd A Handle
  unfolding clear_loop
  clear after_free q = do _ ← clear_loop after_free q.size_of_queue q.head; pure (handle 0 0 0)

-- `get_queue_size`; `none` is the null pointer.
unfoldable pub get_size : Option Handle → ℕ
get_size none = 0
get_size (some q) = q.size_of_queue
