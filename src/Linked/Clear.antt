-- ===== src/Linked/Clear.antt =====
-- `queue_clear` frees every node once, and nothing else. It reads `next` before it frees.
use net_lock.Common.{write, ◌≡◌, ◌∙◌, refl, [], ◌∷◌, Option, some, arith, length}
use net_lock.Linked.{Node, node, Memory, clear_loop, clear}
use net_lock.Linked.Access.{load-ok, free-ok}
use net_lock.Linked.Cells.{Cells, first, handle_of, Holds, SameOff, Holds-write}

module _ {A : Type 0} (after_free : Node A → Option (Node A)) where
  -- Each node of the list has been given back to the allocator.
  abbrev pub Freed : Memory A → Cells A → Type 0
  Freed m [] = Unit
  Freed m ((a, v) ∷ xs) = (m a ≡ after_free (node v (first xs))) × Freed m xs

  clear_loop-Freed :
      (m : Memory A) (xs : Cells A)
      → Holds m xs
      → (m' : Memory A) × (clear_loop after_free (length xs) (first xs) m ≡ some (tt, m'))
        × Freed m' xs
        × SameOff xs m m'
  unfolding clear_loop write
  clear_loop-Freed m [] h = (m, refl, tt, λ p off. refl)
  clear_loop-Freed m ((a, v) ∷ xs) h =
      let m1 = write m a (after_free (node v (first xs))) in
      let (m', run, freed, same) = clear_loop-Freed m1 xs (Holds-write m a _ xs h.2 h.3) in
      (
        m',
        rw
            (
              load-ok m a (node v (first xs)) h.0 h.1,
              free-ok m a (node v (first xs)) h.0 after_free h.1,
              run,
            )
            refl,
        (same a h.2 ∙ ground arith, freed),
        λ p off. same p off.1 ∙ ground (arith, off.0),
      )

  pub clear-Freed :
      (m : Memory A) (xs : Cells A)
      → Holds m xs
      → (m' : Memory A) × (clear after_free (handle_of xs) m ≡ some (handle_of {A = A} [], m'))
        × Freed m' xs
        × SameOff xs m m'
  unfolding clear
  clear-Freed m xs h =
      let (m', run, freed, same) = clear_loop-Freed m xs h in (m', rw run refl, freed, same)
