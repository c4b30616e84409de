-- ===== src/Latency/Tests.antt =====
-- Latencies of 5, 12, 19 and 1000 microseconds.
use net_lock.Common.{ℕ, ◌≡◌, refl, List, [], ◌∷◌, arith}
use net_lock.Latency.{LatencyStat}
use net_lock.Latency.Histogram.{compute_all, compute_all-count}
use net_lock.Latency.Collect.{gather, sort}
use net_lock.Latency.Collect.Sorted.{IsSorted, count}
use net_lock.Latency.Collect.Gathered.{occurs_in_all, sort-gather}

abbrev nothing : LatencyStat
nothing = record { max = 0; num = 0; total = 0; overflow = 0; bin = λ _. 0 }

abbrev latencies : List ℕ
latencies = 5 ∷ 12 ∷ 19 ∷ 1000 ∷ []

compute_all-count_example :
    let t = compute_all latencies nothing in
    (t.num ≡ 4) × (t.total ≡ 1036) × (t.overflow ≡ 1) × (t.bin 1 ≡ 2)
compute_all-count_example =
    compute_all-count latencies 1 nothing (record { overflow = omega arith; bin = omega arith })
      (omega arith) (omega arith)

-- Two cores have sampled 7, 3 and 5, 3.
sort-gather_example :
    let cores : List (List ℕ) = (7 ∷ 3 ∷ []) ∷ (5 ∷ 3 ∷ []) ∷ [] in
    IsSorted
      (gather cores (λ _. 0) 0).1
      (sort (gather cores (λ _. 0) 0).1 (gather cores (λ _. 0) 0).0)
    × ((x : ℕ)
        → count x
            (gather cores (λ _. 0) 0).1
            (sort (gather cores (λ _. 0) 0).1 (gather cores (λ _. 0) 0).0)
          ≡ occurs_in_all x cores)
sort-gather_example = sort-gather ((7 ∷ 3 ∷ []) ∷ (5 ∷ 3 ∷ []) ∷ []) (λ _. 0)

sort_four : sort 4 (gather ((7 ∷ 3 ∷ []) ∷ (5 ∷ 3 ∷ []) ∷ []) (λ _. 0) 0).0 2 ≡ 5
unfolding sort gather
sort_four = refl
