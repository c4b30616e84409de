-- ===== src/Linked/Enqueue.antt =====
-- `enqueue` puts the new node behind the others, and writes to no node but it and the last one.
use net_lock.Common.{
  write, ℕ, ◌≡◌, ◌∙◌, ◌≢◌, refl, [], ◌∷◌, ◌++◌, some, arith, length-append, ne→==,
}
use net_lock.Linked.{node, Memory, store, set_next, link_tail, enqueue, enqueued, enqueue_error}
use net_lock.Linked.Access.{set_next-ok}
use net_lock.Linked.Cells.{
  Cells, last, Off, handle_of, Holds, SameOff, Holds-write, Off-append, ne-last, last-append,
  Off-parts,
}

module _ {A : Type 0} (p : ℕ) (v : A) (p_pos : p ≢ 0) where
  -- What it means that the last node of `x ∷ xs` was made to point at the new node.
  abbrev Linked : ℕ × A → Cells A → Memory A → Memory A → Type 0
  Linked x xs m m' =
      (set_next (last (x ∷ xs)) p m ≡ some (tt, m'))
      × Holds m' ((x ∷ xs) ++ (p, v) ∷ [])
      × ((a : ℕ) → a ≢ last (x ∷ xs) → m' a ≡ m a)

  set_next-last :
      (m : Memory A) (x : ℕ × A) (xs : Cells A)
      → Holds m (x ∷ xs)
      → Off p (x ∷ xs)
      → m p ≡ some (node v 0)
      → (m' : Memory A) × Linked x xs m m'
  unfolding write
  set_next-last m (a, w) [] h off new = (
    write m a (some (node w p)),
    (
      set_next-ok m a (node w 0) h.0 p h.1,
      (h.0, ground arith, ((λ e. off.0 (ground arith)), tt), (p_pos, ground arith, tt, tt)),
      λ b ne. ground arith,
    ),
  )
  set_next-last m (a, w) ((b, u) ∷ ys) h off new =
      let (m', l) = set_next-last m (b, u) ys h.3 off.1 new in
      let a_off : Off a ((p, v) ∷ []) = ((λ e. off.0 (ground arith)), tt) in
      let a_same = l.2 a (ne-last a (b, u) ys h.2) ∙ h.1 in
      (m', (l.0, (h.0, a_same, Off-append a ((b, u) ∷ ys) _ h.2 a_off, l.1), l.2))

  link_tail-cons :
      (m m' : Memory A) (x : ℕ × A) (xs : Cells A)
      → set_next (last (x ∷ xs)) p m ≡ some (tt, m')
      → link_tail p (handle_of (x ∷ xs)) m ≡ some (handle_of ((x ∷ xs) ++ (p, v) ∷ []), m')
  unfolding link_tail
  link_tail-cons m m' (a, w) xs linked =
      let new_tail = last-append ((a, w) ∷ xs) (p, v) in
      let new_size = length-append ((a, w) ∷ xs) ((p, v) ∷ []) in
      ground (arith, linked, new_tail, new_size)

  enqueue-nil :
      (m : Memory A)
      → enqueue p v (handle_of {A = A} []) m
        ≡ some ((enqueued, handle_of ((p, v) ∷ [])), write m p (some (node v 0)))
  unfolding enqueue store link_tail
  enqueue-nil m = rw (ne→== p 0 p_pos)

  -- With memory at hand: the list grows by one node at its end, and the rest of memory stays.
  pub enqueue-append :
      (m : Memory A) (xs : Cells A)
      → Holds m xs
      → Off p xs
      → (m' : Memory A) × (enqueue p v (handle_of xs) m
          ≡ some ((enqueued, handle_of (xs ++ (p, v) ∷ [])), m'))
        × Holds m' (xs ++ (p, v) ∷ [])
        × SameOff (xs ++ (p, v) ∷ []) m m'
  unfolding enqueue store write
  enqueue-append m [] h off = (
    write m p (some (node v 0)),
    enqueue-nil m,
    (p_pos, ground arith, tt, tt),
    λ a out. ground (arith, out.0),
  )
  enqueue-append m ((a, w) ∷ xs) h off =
      let m1 = write m p (some (node v 0)) in
      let held = Holds-write m p (some (node v 0)) ((a, w) ∷ xs) off h in
      let (m', l) = set_next-last m1 (a, w) xs held off (ground arith) in
      (
        m',
        rw (ne→== p 0 p_pos, link_tail-cons m1 m' (a, w) xs l.0) refl,
        l.1,
        λ q out.
            let (off_old, off_new) = Off-parts q ((a, w) ∷ xs) _ out in
            l.2 q (ne-last q (a, w) xs off_old) ∙ ground (arith, off_new.0),
      )

-- Without memory `enqueue` reports it and leaves list and memory alone.
pub enqueue-null :
    {A : Type 0} (v : A) (xs : Cells A) (m : Memory A)
    → enqueue 0 v (handle_of xs) m ≡ some ((enqueue_error, handle_of xs), m)
unfolding enqueue
enqueue-null v xs m = refl
