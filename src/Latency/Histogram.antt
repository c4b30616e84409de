-- ===== src/Latency/Histogram.antt =====
-- The histogram against a count over the list of the latencies.
use net_lock.Common.{
  ℕ, ◌+◌, ◌/◌, ◌%◌, ◌^◌, ◌<◌, ◌≤◌, ◌≡◌, refl, List, [], ◌∷◌, Bool, ◌==◌, ◌&&◌, ltb, leb,
  if◌then◌else◌, length, write, arith,
}
use net_lock.Latency.{LatencyStat, bin_range, bin_max, compute_latency}

unfoldable pub compute_all : List ℕ → LatencyStat → LatencyStat
unfolding compute_latency
compute_all [] s = s
compute_all (l ∷ ls) s = compute_all ls (compute_latency l s)

-- How many pass the test.
abbrev pub count : (ℕ → Bool) → List ℕ → ℕ
count p [] = 0
count p (l ∷ ls) = (if p l then 1 else 0) + count p ls

abbrev pub sum : List ℕ → ℕ
sum [] = 0
sum (l ∷ ls) = l + sum ls

abbrev pub is_long : ℕ → Bool
is_long l = leb bin_max l

-- Of the tens of microseconds from `10 b` on.
abbrev pub is_in_bin : (b : ℕ) → ℕ → Bool
is_in_bin b l = ltb l bin_max && (l / bin_range == b)

-- No counter is above the number of samples.
pub record IsTallied (b : ℕ) (s : LatencyStat) : Type 0 where
  pub overflow : s.overflow ≤ s.num
  pub bin : s.bin b ≤ s.num

step :
    (l b : ℕ) (s : LatencyStat)
    → IsTallied b s
    → s.num + 1 < 2 ^ 64
    → let t = compute_latency l s in
      (t.num ≡ s.num + 1)
      × (t.total ≡ (s.total + l) % 2 ^ 64)
      × (t.overflow ≡ s.overflow + (if is_long l then 1 else 0))
      × (t.bin b ≡ s.bin b + (if is_in_bin b l then 1 else 0))
unfolding compute_latency write
step l b s h fits =
    (ground (arith, fits), refl, ground (arith, fits, h.overflow), ground (arith, fits, h.bin))

-- While fewer than 2^64 latencies are noted: the samples are counted, those of 1000 us and more and
-- those of each bin are as many as there are in the list, and the sum is right modulo 2^64.
pub compute_all-count :
    (ls : List ℕ) (b : ℕ) (s : LatencyStat)
    → IsTallied b s
    → s.total < 2 ^ 64
    → s.num + length ls < 2 ^ 64
    → let t = compute_all ls s in
      (t.num ≡ s.num + length ls)
      × (t.total ≡ (s.total + sum ls) % 2 ^ 64)
      × (t.overflow ≡ s.overflow + count is_long ls)
      × (t.bin b ≡ s.bin b + count (is_in_bin b) ls)
unfolding compute_all
compute_all-count [] b s h total fits =
    (omega arith, omega (arith, total), omega arith, omega arith)
compute_all-count (l ∷ ls) b s h total fits =
    let (num, tot, over, bin) = step l b s h (omega (arith, fits)) in
    let t = compute_latency l s in
    let kept : IsTallied b t = record {
      overflow = ground (arith, num, over, h.overflow);
      bin = ground (arith, num, bin, h.bin);
    } in
    let (num', tot', over', bin') =
      compute_all-count ls b t kept (omega (arith, tot)) (omega (arith, num, fits)) in
    (
      omega (arith, num, num'),
      omega (arith, tot, tot'),
      omega (arith, over, over'),
      omega (arith, bin, bin'),
    )
