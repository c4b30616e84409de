-- ===== src/Client/Cores/Shares.antt =====
-- The shares of the sending cores: each loop over clients ends, and all clients are visited.
use net_lock.Common.{
  ℕ, zero, suc, ◌+◌, ◌-◌, ◌*◌, ◌/◌, ◌%◌, ◌^◌, ◌<◌, ◌≤◌, ◌≡◌, ◌∙◌, refl, sym, ap, ap₂, subst, List,
  [], ◌∷◌, ◌++◌, Option, none, some, true, false, arith, leb, ltb, if◌then◌else◌,
}
use native.Mathlib.Nat.{
  zero-add, mul-div_right, zero-div, mul-le-mul, div-eq_of_lt, div-mul-le_self, le-div_iff_mul-le,
  div-le_of_le-mul, mul-le-mul_right,
}
use net_lock.Setup.{range_from}
use net_lock.Setup.Assigned.{range_from-add}
use net_lock.Wire.{Env, Packet}
use net_lock.Client.{Config}
use net_lock.Client.Transaction.{Clock}
use net_lock.Client.Visit.{Trace, Visited}
use net_lock.Client.Cores.{
  client_index_s, client_index_e, and_then, for_clients, Sending, Pace, ProbePacket, visit_next,
  new_millisecond, probe_when_due, ended, send_round,
}

-- The visits of a list of clients, one after the other.
abbrev pub visit_each : {S : Type 0} → (ℕ → S → Option S) → List ℕ → S → Option S
visit_each body [] s = some s
visit_each body (cid ∷ cids) s = and_then (body cid s) (visit_each body cids)

pub same_next :
    {S : Type 0} (o : Option S) (f g : S → Option S)
    → ((s : S) → f s ≡ g s)
    → and_then o f ≡ and_then o g
same_next none f g h = refl
same_next (some s) f g h = h s

pub never :
    {S : Type 0} (o : Option S) (f : S → Option S) → ((s : S) → f s ≡ none) → and_then o f ≡ none
never none f h = refl
never (some s) f h = h s

-- The loop visits `n` clients from `cid` on, if the last one is below 255 and the fuel suffices.
for_clients-visits :
    {S : Type 0} (body : ℕ → S → Option S) (n fuel cid e : ℕ) (s : S)
    → cid + n ≡ e + 1
    → e < 255
    → n < fuel
    → for_clients fuel cid e body s ≡ visit_each body (range_from n cid) s
unfolding for_clients
for_clients-visits body n zero cid e s at small enough = absurd (omega arith)
for_clients-visits body zero (suc fuel) cid e s at small enough =
    let over : leb cid e ≡ false = ground arith in rw over refl
for_clients-visits body (suc n) (suc fuel) cid e s at small enough =
    let on : leb cid e ≡ true = ground arith in
    let next : (cid + 1) % 256 ≡ cid + 1 = omega (arith, at, small) in
    rw (on, next)
      (same_next (body cid s) (for_clients fuel (cid + 1) e body)
        (visit_each body (range_from n (cid + 1)))
        (λ s'.
          for_clients-visits body n fuel (cid + 1) e s' (omega (arith, at)) small
            (omega (arith, enough))))

-- Where the difference of `uint8_t` is 255, the loop never ends.
for_clients-endless :
    {S : Type 0} (body : ℕ → S → Option S) (fuel cid : ℕ) (s : S)
    → cid < 256
    → for_clients fuel cid 255 body s ≡ none
unfolding for_clients
for_clients-endless body zero cid s h = refl
for_clients-endless body (suc fuel) cid s h =
    let on : leb cid 255 ≡ true = ground arith in
    rw on (
      never (body cid s) (for_clients fuel ((cid + 1) % 256) 255 body)
        (λ s'. for_clients-endless body fuel ((cid + 1) % 256) s' (omega arith)))

-- The clients of the core number `k`.
abbrev pub share : (n m k : ℕ) → List ℕ
share n m k = range_from ((k + 1) * n / m - k * n / m) (k * n / m)

abbrev pub shares : (n m k : ℕ) → List ℕ
shares n m zero = []
shares n m (suc k) = shares n m k ++ share n m k

-- A round, by the clients that it visits: while there is budget, a probe if it is due, and each of
-- the clients once.
abbrev pub round_over :
    Env
    → Config
    → Trace
    → (ℕ → Clock)
    → Pace
    → List ℕ
    → Sending
    → Option (Sending × List ProbePacket × List Packet)
round_over env cfg w clock p cids x =
    if ltb x.sender.pkts_send_ms p.wpkts_send_limit_ms
    then (let (x2, probes) = probe_when_due env cfg p x in
        ended x2 probes (visit_each (visit_next env cfg w clock) cids (x2.sender, x2.client, [])))
    else some (x, [], [])

module _ (n m : ℕ) (pos : 0 < m) (few : m ≤ n) (fits : n < 9) where
  pub begin-suc : (k : ℕ) → k * n / m + 1 ≤ (k + 1) * n / m
  begin-suc k =
      let below : k * n / m * m ≤ k * n = div-mul-le_self (k * n) m in
      let more : (k * n / m + 1) * m ≤ (k + 1) * n = grind (arith, below, few) in
      (le-div_iff_mul-le pos).1 more

  pub begin-le : (k : ℕ) → k ≤ m → k * n / m ≤ n
  begin-le k h = div-le_of_le-mul m (mul-le-mul_right n h)

  pub shares-range : (k : ℕ) → shares n m k ≡ range_from (k * n / m) 0
  shares-range zero = let none : 0 * n / m ≡ 0 = grind (arith, zero-div m) in rw none refl
  shares-range (suc k) =
      let a = k * n / m in
      let b = (k + 1) * n / m in
      let all : a + (b - a) ≡ b = omega (arith, begin-suc k) in
      let next : suc k ≡ k + 1 = omega arith in
      rw (next, shares-range k)
        (subst (λ j. range_from a 0 ++ range_from (b - a) j ≡ range_from b 0) (zero-add a)
          (sym (range_from-add a (b - a) 0) ∙ ap (λ j. range_from j 0) all))

  pub index_s : (k : ℕ) → k < m → client_index_s n m k ≡ k * n / m
  unfolding client_index_s
  index_s k lt =
      let small : k % 256 ≡ k = omega (arith, lt, few, fits) in
      let product : k * n ≤ 9 * 9 =
        mul-le-mul {n₁ = k} {m₁ = n} {n₂ = 9} {m₂ = 9} (omega (arith, lt, few, fits))
          (omega (arith, fits)) in
      let word : k * n % 2 ^ 32 ≡ k * n = omega (arith, product) in
      let bound = begin-le k (omega (arith, lt)) in rw (small, word) (omega (arith, bound, fits))

  pub index_e : (k : ℕ) → k < m → client_index_e n m k + 1 ≡ (k + 1) * n / m
  unfolding client_index_e
  index_e k lt =
      let small : (k + 1) % 256 ≡ k + 1 = omega (arith, lt, few, fits) in
      let product : (k + 1) * n ≤ 9 * 9 =
        mul-le-mul {n₁ = k + 1} {m₁ = n} {n₂ = 9} {m₂ = 9} (omega (arith, lt, few, fits))
          (omega (arith, fits)) in
      let word : (k + 1) * n % 2 ^ 32 ≡ (k + 1) * n = omega (arith, product) in
      let bound = begin-le (k + 1) (omega (arith, lt)) in
      rw (small, word) (omega (arith, bound, fits, begin-suc k))

  -- The loop of the core number `k` ends, and visits its share.
  for_clients-shares :
      {S : Type 0} (k : ℕ) (body : ℕ → S → Option S) (s : S)
      → k < m
      → for_clients 257 (client_index_s n m k) (client_index_e n m k) body s
        ≡ visit_each body (share n m k) s
  for_clients-shares k body s lt =
      let a = k * n / m in
      let b = (k + 1) * n / m in
      let rising = begin-suc k in
      let bound = begin-le (k + 1) (omega (arith, lt)) in
      ap (λ j. for_clients 257 j (client_index_e n m k) body s) (index_s k lt)
      ∙ for_clients-visits body (b - a) 257 a (client_index_e n m k) s
          (omega (arith, index_e k lt, rising)) (omega (arith, index_e k lt, bound, fits))
          (omega (arith, bound, fits))

  -- With at least one sending core, no fewer clients than sending cores and at most eight of them:
  -- a round of the sending core number `k`, whose range of clients is the one that `main`
  -- computes, ends; while the budget of packets lasts it visits each client of a share of
  -- consecutive clients once, in order, behind a probe if one is due; and the shares of all
  -- sending cores are, in order, the clients from 0 on.
  pub send_round-shares :
      (k : ℕ) (env : Env) (cfg : Config) (w : Trace) (clock : ℕ → Clock) (p : Pace) (cur_tsc : ℕ)
      (x : Sending)
      → k < m
      → p.client_first ≡ client_index_s n m k
      → p.client_last ≡ client_index_e n m k
      → (send_round env cfg w clock p cur_tsc x
          ≡ round_over env cfg w clock p (share n m k) (new_millisecond p cur_tsc x))
        × (shares n m m ≡ range_from n 0)
  unfolding send_round
  send_round-shares k env cfg w clock p cur_tsc x lt first last =
      let x1 = new_millisecond p cur_tsc x in
      let x2 = (probe_when_due env cfg p x1).0 in
      let body = visit_next env cfg w clock in
      let none_sent : Visited = (x2.sender, x2.client, []) in
      (
        ap
            (λ (o : Option Visited).
              if ltb x1.sender.pkts_send_ms p.wpkts_send_limit_ms
              then ended x2 (probe_when_due env cfg p x1).1 o
              else some (x1, [], []))
            (ap₂ (λ a b. for_clients 257 a b body none_sent) first last
              ∙ for_clients-shares k body none_sent lt),
        shares-range m ∙ ap (λ j. range_from j 0) (mul-div_right n pos),
      )

-- With fewer clients than sending cores, and at most eight clients, the loop of the first sending
-- core over its range of clients, as `main` computes it, never ends, whatever it does with a
-- client.
pub for_clients-idle :
    {S : Type 0} (n m fuel : ℕ) (body : ℕ → S → Option S) (s : S)
    → n < m
    → n < 9
    → for_clients fuel (client_index_s n m 0) (client_index_e n m 0) body s ≡ none
unfolding client_index_s client_index_e
for_clients-idle n m fuel body s idle fits =
    let none_yet : n / m ≡ 0 = div-eq_of_lt idle in
    let word : 1 * n % 2 ^ 32 ≡ n = omega (arith, fits) in
    let last : (1 * n % 2 ^ 32 / m + 2 ^ 32 - 1) % 2 ^ 32 % 256 ≡ 255 = rw (word, none_yet) refl in
    ap (λ e. for_clients fuel (client_index_s n m 0) e body s) last
    ∙ for_clients-endless body fuel (client_index_s n m 0) s (omega arith)
