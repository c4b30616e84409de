-- ===== src/Meter/Window.antt =====
-- The figures that the measurement reports.
use net_lock.Common.{
  ℕ, zero, suc, ◌+◌, ◌-◌, ◌/◌, ◌^◌, ◌<◌, ◌≤◌, ◌≡◌, ◌∙◌, inl, inr, refl, sym, ap, List, [], ◌==◌,
  ==→eq, Bool-cases, ◌∷◌, ◌++◌, some, false, arith, All, All-imp, get_elem?, subst,
}
use net_lock.Meter.{
  Count, Throughput, Plan, Meter, Reading, Rates, open_window, close_window, measure_all, rates,
  rate, totals, open_cores, close_cores, opened,
}
use net_lock.Meter.Sums.{Figure, counted, shown, sum, totals-sum, sum-sub}
use net_lock.Meter.Cores.{open_cores-lt, close_cores-at}
use net_lock.Meter.Prints.{reports, printed}
use net_lock.Meter.Rounds.{IsQuiet, quiet_rounds, opening_round, closing_round, reports-Passes}

-- Counters that only grow, and whose sums stay below 2^64.
pub record IsGrown (n : ℕ) (before after : ℕ → Count) : Type 0 where
  pub grows : (g : Figure) (i : ℕ) → i < n → counted g (before i) ≤ counted g (after i)
  pub fits : (g : Figure) → sum n (λ i. counted g (after i)) < 2 ^ 64

-- What the report of one core takes off: the count at the start, but nothing for transactions.
abbrev pub taken_off : Figure → Count → ℕ
taken_off Figure.finished c = 0
taken_off g c = counted g c

abbrev pub ShowsTotal : (n interval : ℕ) (before after : ℕ → Count) → Rates → Type 0
ShowsTotal n interval before after total =
    (g : Figure)
    → shown g total ≡ sum n (λ i. counted g (after i) - counted g (before i)) / interval

abbrev pub ShowsCores : (n interval : ℕ) (before after : ℕ → Count) → List Rates → Type 0
ShowsCores n interval before after cores =
    (i : ℕ)
    → i < n
    → (x : Rates) × (get_elem? cores i ≡ some x)
      × ((g : Figure) → shown g x ≡ (counted g (after i) - taken_off g (before i)) / interval)

le-sum : (n i : ℕ) (f : ℕ → ℕ) → i < n → f i ≤ sum n f
le-sum zero i f h = elim h [ ]
le-sum (suc n) i f h = elim (Bool-cases (i == n)) [
  | inl here ↦ let e = ==→eq i n here in omega (arith, ap f e)
  | inr below ↦ omega (arith, le-sum n i f (ground arith))
]

shown-rates :
    (g : Figure) (interval : ℕ) (t : Throughput)
    → shown g (rates interval t) ≡ rate interval (counted g t.now) (counted g t.last)
shown-rates Figure.sent interval t = refl
shown-rates Figure.received interval t = refl
shown-rates Figure.read interval t = refl
shown-rates Figure.written interval t = refl
shown-rates Figure.finished interval t = refl

rate_lem :
    (interval now last : ℕ)
    → last ≤ now
    → now < 2 ^ 64
    → rate interval now last ≡ (now - last) / interval
rate_lem interval now last le lt = ap (λ k. k / interval) (omega (arith, le, lt))

opened-last :
    (g : Figure) (c : Count) (t : Throughput)
    → t.last.txn ≡ 0
    → counted g (opened c t).last ≡ taken_off g c
opened-last Figure.sent c t z = refl
opened-last Figure.received c t z = refl
opened-last Figure.read c t z = refl
opened-last Figure.written c t z = refl
opened-last Figure.finished c t z = z

taken_off-le : (g : Figure) (c d : Count) → counted g c ≤ counted g d → taken_off g c ≤ counted g d
taken_off-le Figure.sent c d h = h
taken_off-le Figure.received c d h = h
taken_off-le Figure.read c d h = h
taken_off-le Figure.written c d h = h
taken_off-le Figure.finished c d h = omega arith

module _ (n interval : ℕ) (before after : ℕ → Count) (grown : IsGrown n before after) where
  rates-ShowsTotal :
      (t : Throughput)
      → t.now ≡ totals n after
      → t.last ≡ totals n before
      → ShowsTotal n interval before after (rates interval t)
  rates-ShowsTotal t at_now at_last g =
      let added =
        sum-sub n (λ i. counted g (before i)) (λ i. counted g (after i)) (grown.grows g) in
      let now : counted g t.now ≡ sum n (λ i. counted g (after i)) =
        ap (counted g) at_now ∙ (totals-sum g n after ∙ omega (arith, grown.fits g)) in
      let last : counted g t.last ≡ sum n (λ i. counted g (before i)) =
        ap (counted g) at_last ∙ (totals-sum g n before ∙ omega (arith, grown.fits g, added)) in
      shown-rates g interval t
      ∙ (rate_lem interval (counted g t.now) (counted g t.last) (omega (arith, now, last, added))
            (omega (arith, now, grown.fits g))
          ∙ ap (λ k. k / interval) (omega (arith, now, last, added)))

  closed-ShowsCores :
      (avg : ℕ → Throughput)
      → ((i : ℕ) → (avg i).last.txn ≡ 0)
      → ShowsCores n interval before after
          (close_cores n 0 interval after (open_cores n before avg)).1
  closed-ShowsCores avg none i lt =
      let open_avg = open_cores n before avg in
      let e : ◌+◌ 0 i ≡ i = omega arith in
      let t : Throughput = record (open_avg i) { now = after i } in
      (
        rates interval t,
        close_cores-at n 0 interval after open_avg i lt
            ∙ ap (λ k. some (rates interval (record (open_avg k) { now = after k }))) e,
        λ g.
            let last : counted g t.last ≡ taken_off g (before i) =
              ap (λ (a : Throughput). counted g a.last) (open_cores-lt n before avg i lt)
              ∙ opened-last g (before i) (avg i) (none i) in
            let le : taken_off g (before i) ≤ counted g (after i) =
              taken_off-le g (before i) (after i) (grown.grows g i lt) in
            shown-rates g interval t
            ∙ (ap (λ k. rate interval (counted g (after i)) k) last
                ∙ rate_lem interval (counted g (after i)) (taken_off g (before i)) le
                    (omega (arith, le-sum n i (λ k. counted g (after k)) lt, grown.fits g))),
      )

module _ (plan : Plan) (m : Meter) (opening closing : Reading) (before between : List Reading) where
  -- The report, for rounds of core 0 where one time stamp follows the start of the window and a
  -- later one its end, the stamps before, between and at the start stand in that order, the
  -- interval is not 0, and the counters grow without a wrap of their sums: one report is printed;
  -- each of its five totals is what all cores have counted from the one round to the other,
  -- divided by the interval; so are the figures of a core, but for its transactions, which are
  -- those of the whole run.
  pub measure_all-reports :
      0 < plan.update_tsc
      → 0 < plan.average_interval
      → 0 < m.average_start_tsc
      → m.stop_statis ≡ false
      → ((i : ℕ) → (m.tput_stat_avg i).last.txn ≡ 0)
      → All (λ (r : Reading). r.cur_tsc ≤ m.average_start_tsc) before
      → m.average_start_tsc < opening.cur_tsc
      → opening.cur_tsc ≤ plan.average_end_tsc
      → All (λ (r : Reading). r.cur_tsc ≤ plan.average_end_tsc) between
      → plan.average_end_tsc < closing.cur_tsc
      → IsGrown plan.n_lcores opening.tput_stat closing.tput_stat
      → (cores : List Rates) × (total : Rates) × (reports
            (printed (measure_all plan (before ++ opening ∷ (between ++ closing ∷ [])) m))
          ≡ (cores, total) ∷ [])
        × ShowsTotal plan.n_lcores plan.average_interval opening.tput_stat closing.tput_stat total
        × ShowsCores plan.n_lcores plan.average_interval opening.tput_stat closing.tput_stat cores
  unfolding open_window close_window
  measure_all-reports counts divides some_start going none quiet late1 early1 quiet2 late2 grown =
      let n = plan.n_lcores in
      let start = m.average_start_tsc in
      let (m1, (same1, passes1)) = quiet_rounds plan counts start before m refl going (
        All-imp (λ (r : Reading). r.cur_tsc ≤ start) (IsQuiet plan start)
          (λ r le. (inr le, omega (arith, le, late1, early1))) before quiet) in
      let (m2, (same2, passes2)) =
        opening_round plan counts opening m1 (rw same1.start some_start) (rw same1.start late1)
          early1 (same1.stop ∙ going) in
      let m3 = open_window plan opening m2 in
      let (m4, (same4, passes4)) =
        quiet_rounds plan counts 0 between m3 refl (same2.stop ∙ (same1.stop ∙ going)) (
          All-imp (λ (r : Reading). r.cur_tsc ≤ plan.average_end_tsc) (IsQuiet plan 0)
            (λ r le. (inl refl, le)) between quiet2) in
      let (m5, (same5, closes)) =
        closing_round plan counts closing m4 same4.start (omega (arith, late1, early1)) late2
          divides (same4.stop ∙ (same2.stop ∙ (same1.stop ∙ going))) in
      let avg : m5.tput_stat_avg ≡ open_cores n opening.tput_stat m2.tput_stat_avg =
        same5.avg ∙ same4.avg in
      let last : m5.tput_stat_total.last ≡ totals n opening.tput_stat =
        ap (λ (t : Throughput). t.last) (same5.total ∙ same4.total) in
      let none2 =
        λ (i : ℕ). ap (λ (a : ℕ → Throughput). (a i).last.txn) (same2.avg ∙ same1.avg) ∙ none i in
      (
        _,
        _,
        reports-Passes plan counts before (opening ∷ (between ++ closing ∷ [])) m m1 passes1
            ∙ (reports-Passes plan counts (opening ∷ []) (between ++ closing ∷ []) m1 m3 passes2
                ∙ (reports-Passes plan counts between (closing ∷ []) m3 m4 passes4 ∙ closes)),
        rates-ShowsTotal n plan.average_interval opening.tput_stat closing.tput_stat grown _ refl
            last,
        subst
            (λ a.
              ShowsCores n plan.average_interval opening.tput_stat closing.tput_stat
                (close_cores n 0 plan.average_interval closing.tput_stat a).1)
            (sym avg)
            (closed-ShowsCores n plan.average_interval opening.tput_stat closing.tput_stat grown
              m2.tput_stat_avg none2),
      )
