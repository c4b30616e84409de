-- ===== src/Latency/Collect.antt =====
-- How `collect_results` of dpdk_code/client_code/include/collect.h sorts the samples of all cores. The
-- array `latency_samples_together` is a function on its indices, and is taken to have room for all samples.
pub mod Sorted
pub mod Gathered
use net_lock.Common.{ℕ, zero, suc, ◌+◌, List, [], ◌∷◌, Bool, true, false, ltb, if◌then◌else◌, write}

-- The samples of one core, from place `k` on, and how many there are then.
unfoldable pub gather_core : List ℕ → (ℕ → ℕ) → (k : ℕ) → (ℕ → ℕ) × ℕ
unfolding write
gather_core [] a k = (a, k)
gather_core (x ∷ xs) a k = gather_core xs (write a k x) (k + 1)

-- The samples of all cores.
unfoldable pub gather : List (List ℕ) → (ℕ → ℕ) → (k : ℕ) → (ℕ → ℕ) × ℕ
unfolding gather_core
gather [] a k = (a, k)
gather (xs ∷ cores) a k = let (a', k') = gather_core xs a k in gather cores a' k'

-- `while (j > 0 && ...)`: entries above `lat` move up by one, and the place of `lat` is found.
unfoldable pub shift : (j lat : ℕ) → (ℕ → ℕ) → (ℕ → ℕ) × ℕ
unfolding write
shift zero lat a = (a, 0)
shift (suc j) lat a = elim (ltb lat (a j)) [
  | true ↦ shift j lat (write a (suc j) (a j))
  | false ↦ (a, suc j)
]

unfoldable pub insert_at : ℕ → (ℕ → ℕ) → ℕ → ℕ
unfolding shift
insert_at i a = let (a', j) = shift i (a i) a in write a' j (a i)

-- The loop over `i`, of `n` rounds.
unfoldable pub sort : ℕ → (ℕ → ℕ) → ℕ → ℕ
unfolding insert_at
sort zero a = a
sort (suc n) a = insert_at n (sort n a)
