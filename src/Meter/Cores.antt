-- ===== src/Meter/Cores.antt =====
-- What the loops over the cores leave at each core, and print for it.
use net_lock.Common.{
  ℕ, zero, suc, ◌+◌, ◌<◌, ◌≤◌, ◌≡◌, ◌∙◌, refl, sym, ap, some, arith, write, subst, ==→eq, write-ne,
  get_elem?, Bool-cases, inl, inr, ◌==◌,
}
use native.Mathlib.Nat.{add-zero}
use net_lock.Meter.{Count, Throughput, opened, open_cores, rates, close_cores}

pub open_cores-le :
    (n : ℕ) (stat : ℕ → Count) (avg : ℕ → Throughput) (i : ℕ)
    → n ≤ i
    → open_cores n stat avg i ≡ avg i
unfolding open_cores
open_cores-le zero stat avg i h = refl
open_cores-le (suc n) stat avg i h =
    let a = open_cores n stat avg in
    write-ne a n i (opened (stat n) (a n)) (λ e. omega (arith, e))
    ∙ open_cores-le n stat avg i (omega arith)

pub open_cores-lt :
    (n : ℕ) (stat : ℕ → Count) (avg : ℕ → Throughput) (i : ℕ)
    → i < n
    → open_cores n stat avg i ≡ opened (stat i) (avg i)
unfolding open_cores write
open_cores-lt zero stat avg i h = elim h [ ]
open_cores-lt (suc n) stat avg i h =
    let a = open_cores n stat avg in
    elim (Bool-cases (i == n)) [
      | inl e ↦
          let same : n ≡ i = sym (==→eq i n e) in
          rw e (
            rw same (
              ap (opened (stat i)) (
                subst (λ k. open_cores k stat avg i ≡ avg i) same
                  (open_cores-le n stat avg i (omega (arith, same))))))
      | inr ne ↦ rw ne (open_cores-lt n stat avg i (ground arith))
    ]

-- The report of the cores from `i` on, at the core `j` places after.
pub close_cores-at :
    (n i interval : ℕ) (stat : ℕ → Count) (avg : ℕ → Throughput) (j : ℕ)
    → j < n
    → get_elem? (close_cores n i interval stat avg).1 j
      ≡ some (rates interval (record (avg (i + j)) { now = stat (i + j) }))
unfolding close_cores
close_cores-at zero i interval stat avg j h = elim h [ ]
close_cores-at (suc n) i interval stat avg zero h = rw (add-zero i) refl
close_cores-at (suc n) i interval stat avg (suc j) h =
    let t : Throughput = record (avg i) { now = stat i } in
    let e : i + suc j ≡ i + 1 + j = omega arith in
    let away : write avg i t (i + 1 + j) ≡ avg (i + 1 + j) =
      write-ne avg i _ t (λ e. omega (arith, e)) in
    rw e (
      close_cores-at n (i + 1) interval stat (write avg i t) j (omega arith)
      ∙ ap (λ (a : Throughput). some (rates interval (record a { now = stat (i + 1 + j) }))) away)
