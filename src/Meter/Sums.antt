-- ===== src/Meter/Sums.antt =====
-- The totals of the measurement are sums over the cores.
use net_lock.Common.{ℕ, zero, suc, ◌+◌, ◌-◌, ◌%◌, ◌^◌, ◌<◌, ◌≤◌, ◌≡◌, refl, arith}
use net_lock.Meter.{Count, Rates, totals}

-- One of the five figures, as it is counted and as it is printed.
pub data Figure : Type 0 where
  sent : Figure
  received : Figure
  read : Figure
  written : Figure
  finished : Figure

abbrev pub counted : Figure → Count → ℕ
counted sent c = c.tx
counted received c = c.rx
counted read c = c.rx_read
counted written c = c.rx_write
counted finished c = c.txn

abbrev pub shown : Figure → Rates → ℕ
shown sent r = r.tx
shown received r = r.rx
shown read r = r.rx_read
shown written r = r.rx_write
shown finished r = r.txn_rate

-- The sum over the first `n` cores.
abbrev pub sum : ℕ → (ℕ → ℕ) → ℕ
sum zero f = 0
sum (suc n) f = sum n f + f n

pub totals-sum :
    (g : Figure) (n : ℕ) (stat : ℕ → Count)
    → counted g (totals n stat) ≡ sum n (λ i. counted g (stat i)) % 2 ^ 64
unfolding totals
totals-sum sent zero stat = refl
totals-sum received zero stat = refl
totals-sum read zero stat = refl
totals-sum written zero stat = refl
totals-sum finished zero stat = refl
totals-sum sent (suc n) stat = omega (arith, totals-sum sent n stat)
totals-sum received (suc n) stat = omega (arith, totals-sum received n stat)
totals-sum read (suc n) stat = omega (arith, totals-sum read n stat)
totals-sum written (suc n) stat = omega (arith, totals-sum written n stat)
totals-sum finished (suc n) stat = omega (arith, totals-sum finished n stat)

-- Where nothing falls, the sum of what is added is the difference of the sums.
pub sum-sub :
    (n : ℕ) (a b : ℕ → ℕ)
    → ((i : ℕ) → i < n → a i ≤ b i)
    → sum n (λ i. b i - a i) + sum n a ≡ sum n b
sum-sub zero a b h = refl
sum-sub (suc n) a b h = omega (arith, sum-sub n a b (λ i lt. h i (omega arith)), h n (omega arith))
