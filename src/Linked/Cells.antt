-- ===== src/Linked/Cells.antt =====
-- The nodes of a list in memory: their addresses and contents, in order.
use net_lock.Common.{write, ℕ, ◌≡◌, ◌≢◌, refl, ap, List, [], ◌∷◌, ◌++◌, Option, some, arith, length}
use net_lock.Linked.{Node, node, Memory, Handle, handle}

abbrev pub Cells : Type 0 → Type 0
Cells A = List (ℕ × A)

module _ {A : Type 0} where
  abbrev pub contents : Cells A → List A
  contents [] = []
  contents ((a, v) ∷ xs) = v ∷ contents xs

  abbrev pub first : Cells A → ℕ
  first [] = 0
  first ((a, v) ∷ xs) = a

  abbrev pub last : Cells A → ℕ
  last [] = 0
  last ((a, v) ∷ []) = a
  last (x ∷ y ∷ xs) = last (y ∷ xs)

  -- No node of the list is at `p`.
  abbrev pub Off : ℕ → Cells A → Type 0
  Off p [] = Unit
  Off p ((a, v) ∷ xs) = (p ≢ a) × Off p xs

  -- The list that the handle stands for.
  abbrev pub handle_of : Cells A → Handle
  handle_of xs = handle (length xs) (first xs) (last xs)

  -- The memory holds the list: each node at its own address, and leading to the next one.
  abbrev pub Holds : Memory A → Cells A → Type 0
  Holds m [] = Unit
  Holds m ((a, v) ∷ xs) = (a ≢ 0) × (m a ≡ some (node v (first xs))) × Off a xs × Holds m xs

  -- `m'` differs from `m` at most at the addresses of the list.
  abbrev pub SameOff : Cells A → Memory A → Memory A → Type 0
  SameOff xs m m' = (p : ℕ) → Off p xs → m' p ≡ m p

  pub Holds-write :
      (m : Memory A) (p : ℕ) (c : Option (Node A)) (xs : Cells A)
      → Off p xs
      → Holds m xs
      → Holds (write m p c) xs
  unfolding write
  Holds-write m p c [] off h = tt
  Holds-write m p c ((a, v) ∷ xs) off h = (h.0, ground arith, h.2, Holds-write m p c xs off.1 h.3)

  pub Off-append : (p : ℕ) (xs ys : Cells A) → Off p xs → Off p ys → Off p (xs ++ ys)
  Off-append p [] ys hx hy = hy
  Off-append p ((a, v) ∷ xs) ys hx hy = (hx.0, Off-append p xs ys hx.1 hy)

  pub ne-last : (p : ℕ) (x : ℕ × A) (xs : Cells A) → Off p (x ∷ xs) → p ≢ last (x ∷ xs)
  ne-last p (a, v) [] off = off.0
  ne-last p (a, v) (y ∷ xs) off = ne-last p y xs off.1

  pub last-append : (xs : Cells A) (y : ℕ × A) → last (xs ++ y ∷ []) ≡ y.0
  last-append [] (b, w) = refl
  last-append (x ∷ []) (b, w) = refl
  last-append (x ∷ y ∷ xs) z = last-append (y ∷ xs) z

  pub contents-append : (xs ys : Cells A) → contents (xs ++ ys) ≡ contents xs ++ contents ys
  contents-append [] ys = refl
  contents-append ((a, v) ∷ xs) ys = ap (λ l. v ∷ l) (contents-append xs ys)

  pub Off-parts : (p : ℕ) (xs ys : Cells A) → Off p (xs ++ ys) → Off p xs × Off p ys
  Off-parts p [] ys h = (tt, h)
  Off-parts p ((a, v) ∷ xs) ys h = let r = Off-parts p xs ys h.1 in ((h.0, r.0), r.1)
