-- ===== src/Meter/Rounds.antt =====
-- A round of the measurement, by where its time stamp stands.
use net_lock.Common.{
  ℕ, ◌<◌, ◌≤◌, ◌≡◌, ◌⊎◌, ◌∙◌, inl, inr, refl, sym, ap, List, [], ◌∷◌, ◌++◌, false, arith, All,
  Bool-cases, branches, if◌then◌else◌, ltb, ◌==◌, lt→ltb, subst,
}
use net_lock.Meter.{
  Outcome, Plan, Meter, Reading, Print, goes_on, divides_by_zero, tick, open_when_due, open_window,
  close_window, finish, report, measure, measure_all, after, then_go_on, print_per_core_throughput,
}
use net_lock.Meter.Prints.{
  reports, reports-append, printed, printed-finish, after-after, after-nil, printed-then,
  printed-after,
}

-- What a window is about stays.
pub record Same (m m' : Meter) : Type 0 where
  pub avg : m'.tput_stat_avg ≡ m.tput_stat_avg
  pub total : m'.tput_stat_total ≡ m.tput_stat_total
  pub start : m'.average_start_tsc ≡ m.average_start_tsc
  pub stop : m'.stop_statis ≡ m.stop_statis

pub tick-Same :
    (plan : Plan) (r : Reading) (m : Meter)
    → Same m (tick plan r m).0 × (reports (tick plan r m).1 ≡ [])
unfolding tick print_per_core_throughput
tick-Same plan r m = elim (Bool-cases (ltb m.next_update_tsc r.cur_tsc)) [
  | inl due ↦ rw due (record { avg = refl; total = refl; start = refl; stop = refl }, refl)
  | inr not_due ↦ rw not_due (record { avg = refl; total = refl; start = refl; stop = refl }, refl)
]

module _ (plan : Plan) (r : Reading) (m : Meter) (counts : 0 < plan.update_tsc) where
  abbrev pub ticked : Meter
  ticked = (tick plan r m).0

  pub measure_lem : measure plan r m ≡ report plan r (open_when_due plan r ticked) (tick plan r m).1
  unfolding measure
  measure_lem = rw (lt→ltb 0 plan.update_tsc counts) refl

  early :
      m.average_start_tsc ≡ 0 ⊎ (r.cur_tsc ≤ m.average_start_tsc)
      → open_when_due plan r ticked ≡ ticked
  unfolding open_when_due
  early (inl z) = ground (arith, (tick-Same plan r m).0.start)
  early (inr le) = ground (arith, (tick-Same plan r m).0.start)

  due :
      0 < m.average_start_tsc
      → m.average_start_tsc < r.cur_tsc
      → open_when_due plan r ticked ≡ open_window plan r ticked
  unfolding open_when_due
  due pos lt =
      rw
        (
          ap (λ k. ltb 0 k) (tick-Same plan r m).0.start,
          lt→ltb _ _ pos,
          ap (λ k. ltb k r.cur_tsc) (tick-Same plan r m).0.start,
          lt→ltb _ _ lt,
        )
        refl

report_before :
    (plan : Plan) (r : Reading) (m : Meter) (out : List Print)
    → r.cur_tsc ≤ plan.average_end_tsc
    → m.stop_statis ≡ false
    → report plan r m out ≡ goes_on m out
unfolding report
report_before plan r m out early going = ground (arith, going)

report_due :
    (plan : Plan) (r : Reading) (m : Meter) (out : List Print)
    → plan.average_end_tsc < r.cur_tsc
    → 0 < plan.average_end_tsc
    → 0 < plan.average_interval
    → m.stop_statis ≡ false
    → report plan r m out
      ≡ finish plan r (close_window plan r m).0 (out ++ (close_window plan r m).1 ∷ [])
unfolding report
report_due plan r m out late some_end divides going =
    let tested : (plan.average_interval == 0) ≡ false = ground (arith, divides) in
    rw (lt→ltb _ _ late, lt→ltb _ _ some_end, going, tested) refl

-- A round between the ends of the window, or before its start, leaves it alone.
abbrev pub IsQuiet : Plan → ℕ → Reading → Type 0
IsQuiet plan start r = (start ≡ 0 ⊎ (r.cur_tsc ≤ start)) × (r.cur_tsc ≤ plan.average_end_tsc)

module _ (plan : Plan) (counts : 0 < plan.update_tsc) where
  abbrev pub Passes : List Reading → Meter → Meter → Type 0
  Passes rs m m' =
      (out : List Print) × (reports out ≡ [])
      × ((rest : List Reading)
          → measure_all plan (rs ++ rest) m ≡ after out (measure_all plan rest m'))

  pub quiet_rounds :
      (start : ℕ) (rs : List Reading) (m : Meter)
      → m.average_start_tsc ≡ start
      → m.stop_statis ≡ false
      → All (IsQuiet plan start) rs
      → (m' : Meter) × (Same m m' × Passes rs m m')
  unfolding measure_all
  quiet_rounds start [] m at going h = (
    m,
    (
      record { avg = refl; total = refl; start = refl; stop = refl },
      ([], refl, λ rest. sym (after-nil (measure_all plan rest m))),
    ),
  )
  quiet_rounds start (r ∷ rs) m at going h =
      let (same, nothing) = tick-Same plan r m in
      let out = (tick plan r m).1 in
      let m1 = ticked plan r m counts in
      let step : measure plan r m ≡ goes_on m1 out =
        measure_lem plan r m counts
        ∙ (ap (λ z. report plan r z out)
              (early plan r m counts (subst (λ k. k ≡ 0 ⊎ (r.cur_tsc ≤ k)) (sym at) h.0.0))
            ∙ report_before plan r m1 out h.0.1 (same.stop ∙ going)) in
      let (m', (same', (out', nothing', passes))) =
        quiet_rounds start rs m1 (same.start ∙ at) (same.stop ∙ going) h.1 in
      (
        m',
        (
          record {
            avg = same'.avg ∙ same.avg;
            total = same'.total ∙ same.total;
            start = same'.start ∙ same.start;
            stop = same'.stop ∙ same.stop;
          },
          (
            out ++ out',
            reports-append out out' ∙ (ap (λ rs. rs ++ reports out') nothing ∙ nothing'),
            λ rest.
                ap (λ o. then_go_on o (measure_all plan (rs ++ rest))) step
                ∙ (ap (after out) (passes rest) ∙ after-after out out' (measure_all plan rest m')),
          ),
        ),
      )

  -- The round that opens the window.
  pub opening_round :
      (r : Reading) (m : Meter)
      → 0 < m.average_start_tsc
      → m.average_start_tsc < r.cur_tsc
      → r.cur_tsc ≤ plan.average_end_tsc
      → m.stop_statis ≡ false
      → (m' : Meter) × (Same m m' × Passes (r ∷ []) m (open_window plan r m'))
  unfolding measure_all open_window
  opening_round r m some_start late early going =
      let (same, nothing) = tick-Same plan r m in
      let out = (tick plan r m).1 in
      let m1 = ticked plan r m counts in
      let step : measure plan r m ≡ goes_on (open_window plan r m1) out =
        measure_lem plan r m counts
        ∙ (ap (λ z. report plan r z out) (due plan r m counts some_start late)
            ∙ report_before plan r (open_window plan r m1) out early (same.stop ∙ going)) in
      (m1, (same, (out, nothing, λ rest. ap (λ o. then_go_on o (measure_all plan rest)) step)))

  -- The round that closes it.
  pub closing_round :
      (r : Reading) (m : Meter)
      → m.average_start_tsc ≡ 0
      → 0 < plan.average_end_tsc
      → plan.average_end_tsc < r.cur_tsc
      → 0 < plan.average_interval
      → m.stop_statis ≡ false
      → (m' : Meter) × (Same m m'
          × (reports (printed (measure_all plan (r ∷ []) m))
              ≡ reports ((close_window plan r m').1 ∷ [])))
  unfolding measure_all
  closing_round r m opened some_end late divides going =
      let (same, nothing) = tick-Same plan r m in
      let out = (tick plan r m).1 in
      let m1 = ticked plan r m counts in
      let p = (close_window plan r m1).1 in
      let step : measure plan r m ≡ finish plan r (close_window plan r m1).0 (out ++ p ∷ []) =
        measure_lem plan r m counts
        ∙ (ap (λ z. report plan r z out) (early plan r m counts (inl opened))
            ∙ report_due plan r m1 out late some_end divides (same.stop ∙ going)) in
      (
        m1,
        (
          same,
          printed-then (measure plan r m)
              ∙ (ap (λ o. reports (printed o)) step
                  ∙ (ap reports (printed-finish plan r (close_window plan r m1).0 (out ++ p ∷ []))
                      ∙ (reports-append out (p ∷ []) ∙ ap (λ rs. rs ++ reports (p ∷ [])) nothing))),
        ),
      )

  pub reports-Passes :
      (rs rest : List Reading) (m m' : Meter)
      → Passes rs m m'
      → reports (printed (measure_all plan (rs ++ rest) m))
        ≡ reports (printed (measure_all plan rest m'))
  reports-Passes rs rest m m' (out, nothing, passes) =
      ap (λ o. reports (printed o)) (passes rest)
      ∙ printed-after out (measure_all plan rest m') nothing

-- Until the end of the test every round goes on.
abbrev GoesOn : Outcome → Type 0
GoesOn o = (m' : Meter) × (out : List Print) × (o ≡ goes_on m' out)

module _ (plan : Plan) (r : Reading) (divides : 0 < plan.average_interval)
    (before : r.cur_tsc ≤ plan.exit_tsc) where
  finish-GoesOn : (m : Meter) (out : List Print) → GoesOn (finish plan r m out)
  finish-GoesOn m out = (m, out, ground arith)

  report-GoesOn : (m : Meter) (out : List Print) → GoesOn (report plan r m out)
  unfolding report
  report-GoesOn m out =
      let tested : (plan.average_interval == 0) ≡ false = ground (arith, divides) in
      let closed =
        finish plan r (close_window plan r m).0 (out ++ (close_window plan r m).1 ∷ []) in
      let reported : GoesOn (if plan.average_interval == 0 then divides_by_zero else closed) =
        rw tested
          (finish-GoesOn (close_window plan r m).0 (out ++ (close_window plan r m).1 ∷ [])) in
      branches GoesOn _ reported (finish-GoesOn m out)

  pub measure-goes_on :
      (m : Meter) → (m' : Meter) × (out : List Print) × (measure plan r m ≡ goes_on m' out)
  unfolding measure
  measure-goes_on m =
      branches GoesOn (ltb 0 plan.update_tsc)
        (report-GoesOn (open_when_due plan r (tick plan r m).0) (tick plan r m).1) (m, [], refl)
