-- ===== src/Latency/Collect/Gathered.antt =====
-- The samples that are sorted are those of all cores.
use net_lock.Common.{ℕ, suc, ◌+◌, ◌≡◌, ap, List, [], ◌∷◌, arith, write, write_self}
use net_lock.Latency.Collect.{gather_core, gather, sort}
use net_lock.Latency.Collect.Sorted.{
  one_if, count, IsSorted, count-above, sort-IsSorted, sort-count,
}

-- How often `x` stands in a list, and in the lists of all cores.
abbrev pub occurs : ℕ → List ℕ → ℕ
occurs x [] = 0
occurs x (y ∷ ys) = one_if x y + occurs x ys

abbrev pub occurs_in_all : ℕ → List (List ℕ) → ℕ
occurs_in_all x [] = 0
occurs_in_all x (ys ∷ cores) = occurs x ys + occurs_in_all x cores

count-next :
    (x : ℕ) (a : ℕ → ℕ) (k y : ℕ) → count x (k + 1) (write a k y) ≡ count x k a + one_if x y
count-next x a k y =
    let next : k + 1 ≡ suc k = omega arith in
    rw next (omega (arith, count-above x k k y a (omega arith), ap (one_if x) (write_self a k y)))

gather_core-count :
    (x : ℕ) (ys : List ℕ) (a : ℕ → ℕ) (k : ℕ)
    → count x (gather_core ys a k).1 (gather_core ys a k).0 ≡ count x k a + occurs x ys
unfolding gather_core
gather_core-count x [] a k = omega arith
gather_core-count x (y ∷ ys) a k =
    omega (arith, gather_core-count x ys (write a k y) (k + 1), count-next x a k y)

gather-count :
    (x : ℕ) (cores : List (List ℕ)) (a : ℕ → ℕ) (k : ℕ)
    → count x (gather cores a k).1 (gather cores a k).0 ≡ count x k a + occurs_in_all x cores
unfolding gather
gather-count x [] a k = omega arith
gather-count x (ys ∷ cores) a k =
    let r = gather_core ys a k in
    omega (arith, gather-count x cores r.0 r.1, gather_core-count x ys a k)

-- The samples of all cores, one core after the other, in an array, whatever it held: after the
-- sort the entries are in ascending order, and each number stands among them as often as among the
-- samples of the cores.
pub sort-gather :
    (cores : List (List ℕ)) (a : ℕ → ℕ)
    → IsSorted (gather cores a 0).1 (sort (gather cores a 0).1 (gather cores a 0).0)
      × ((x : ℕ)
          → count x (gather cores a 0).1 (sort (gather cores a 0).1 (gather cores a 0).0)
            ≡ occurs_in_all x cores)
sort-gather cores a =
    let (b, n) = gather cores a 0 in
    (
      sort-IsSorted n b,
      λ x. omega (arith, sort-count x n n b (omega arith), gather-count x cores a 0),
    )
