-- ===== src/Linked/Dequeue.antt =====
-- `dequeue` reads the node's `next` after `free`: it works exactly where the allocator leaves it.
use net_lock.Common.{write, ℕ, ◌≡◌, ◌∙◌, ◌≢◌, refl, [], ◌∷◌, Option, none, some, arith}
use net_lock.Linked.{Node, node, Memory, drop_head, take_head, dequeue}
use net_lock.Linked.Access.{load-ok, free-ok, load-none}
use net_lock.Linked.Cells.{Cells, first, handle_of, Holds, Holds-write}

-- A freed node can still be read, and its `next` is what it was.
abbrev pub KeepsNext : {A : Type 0} → (Node A → Option (Node A)) → Type 0
KeepsNext {A} after_free = (n : Node A) → (k : Node A) × (after_free n ≡ some k) × (k.next ≡ n.next)

module _ {A : Type 0} (after_free : Node A → Option (Node A)) where
  -- The memory that `dequeue` leaves behind.
  abbrev pub without_head : Memory A → ℕ × A → Cells A → Memory A
  without_head m (a, v) xs = write m a (after_free (node v (first xs)))

  drop_head-last :
      (m : Memory A) (a : ℕ) (v : A)
      → drop_head (handle_of ((a, v) ∷ [])) v m ≡ some ((some v, handle_of {A = A} []), m)
  unfolding drop_head
  drop_head-last m a v = refl

  drop_head-cons :
      (m : Memory A) (a : ℕ) (v : A) (y : ℕ × A) (ys : Cells A) (k : Node A)
      → a ≢ 0
      → m a ≡ some k
      → k.next ≡ first (y ∷ ys)
      → drop_head (handle_of ((a, v) ∷ y ∷ ys)) v m ≡ some ((some v, handle_of (y ∷ ys)), m)
  unfolding drop_head
  drop_head-cons m a v (b, u) ys k a_pos here next = ground (arith, load-ok m a k a_pos here)

  take_head-unlocked :
      (m : Memory A) (a : ℕ) (v : A) (xs : Cells A)
      → Holds m ((a, v) ∷ xs)
      → dequeue after_free (handle_of ((a, v) ∷ xs)) m
        ≡ drop_head (handle_of ((a, v) ∷ xs)) v (without_head m (a, v) xs)
  unfolding dequeue take_head
  take_head-unlocked m a v xs h = ground (
    arith,
    load-ok m a (node v (first xs)) h.0 h.1,
    free-ok m a (node v (first xs)) h.0 after_free h.1,
  )

  -- On a list with nodes, where freed nodes keep their `next`: the first node's contents come out,
  -- the rest is the list that is left, and no node but the first is touched.
  pub dequeue-cons :
      (m : Memory A) (x : ℕ × A) (xs : Cells A)
      → KeepsNext after_free
      → Holds m (x ∷ xs)
      → (dequeue after_free (handle_of (x ∷ xs)) m
          ≡ some ((some x.1, handle_of xs), without_head m x xs))
        × Holds (without_head m x xs) xs
        × ((p : ℕ) → p ≢ x.0 → without_head m x xs p ≡ m p)
  unfolding write
  dequeue-cons m (a, v) [] keeps h =
      (take_head-unlocked m a v [] h ∙ drop_head-last _ a v, tt, λ p ne. ground arith)
  dequeue-cons m (a, v) (y ∷ ys) keeps h =
      let (k, freed, next) = keeps (node v (first (y ∷ ys))) in
      (
        take_head-unlocked m a v (y ∷ ys) h
            ∙ drop_head-cons _ a v y ys k h.0 (ground (arith, freed)) next,
        Holds-write m a _ (y ∷ ys) h.2 h.3,
        λ p ne. ground arith,
      )

  -- Where a freed node cannot be read, `dequeue` stops the program on every list of two or more.
  pub dequeue-fault :
      (m : Memory A) (x y : ℕ × A) (ys : Cells A)
      → ((n : Node A) → after_free n ≡ none)
      → Holds m (x ∷ y ∷ ys)
      → dequeue after_free (handle_of (x ∷ y ∷ ys)) m ≡ none
  unfolding drop_head write
  dequeue-fault m (a, v) y ys lost h =
      let gone = lost (node v (first (y ∷ ys))) in
      let unread = load-none (without_head m (a, v) (y ∷ ys)) a (ground (arith, gone)) in
      take_head-unlocked m a v (y ∷ ys) h ∙ ground (arith, unread)

-- The empty list stays, and the output variables are left alone.
pub dequeue-nil :
    {A : Type 0} (after_free : Node A → Option (Node A)) (m : Memory A)
    → dequeue after_free (handle_of {A = A} []) m ≡ some ((none, handle_of {A = A} []), m)
unfolding dequeue
dequeue-nil after_free m = refl
