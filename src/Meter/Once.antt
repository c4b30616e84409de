-- ===== src/Meter/Once.antt =====
-- How often the measurement reports, and what an interval of 0 seconds does.
use net_lock.Common.{
  ℕ, ◌+◌, ◌^◌, ◌<◌, ◌≤◌, ◌≡◌, ◌∙◌, refl, sym, ap, List, [], ◌∷◌, ◌++◌, Bool, true, false, arith,
  length, length-append, Bool-cases, inl, inr, branches, ltb, ◌&&◌, ◌==◌, if◌then◌else◌, lt→ltb,
  eq→==, subst,
}
use net_lock.Latency.{LatencyStat}
use net_lock.Meter.{
  Plan, Meter, Reading, Print, Outcome, goes_on, completed, divides_by_zero, plan_of, meter_of,
  tick, open_when_due, open_window, close_window, finish, report, measure, measure_all, after,
  then_go_on,
}
use net_lock.Meter.Prints.{reports, reports-append, printed}
use net_lock.Meter.Rounds.{tick-Same, measure_lem}

-- The reports that are still to come.
abbrev left : Bool → ℕ
left b = if b then 0 else 1

-- No more than `k` reports, with those to come.
abbrev Within : ℕ → Outcome → Type 0
Within k (goes_on m out) = length (reports out) + left m.stop_statis ≤ k
Within k (completed out) = length (reports out) ≤ k
Within k divides_by_zero = Unit

finish-Within :
    (k : ℕ) (plan : Plan) (r : Reading) (m : Meter) (out : List Print)
    → length (reports out) + left m.stop_statis ≤ k
    → Within k (finish plan r m out)
finish-Within k plan r m out h =
    branches (Within k) (ltb 0 plan.average_end_tsc && ltb plan.exit_tsc r.cur_tsc && m.stop_statis)
      (omega (arith, h)) h

report_stopped :
    (plan : Plan) (r : Reading) (m : Meter) (out : List Print)
    → m.stop_statis ≡ true
    → report plan r m out ≡ finish plan r m out
unfolding report
report_stopped plan r m out stopped = ground (arith, stopped)

report_first :
    (plan : Plan) (r : Reading) (m : Meter) (out : List Print)
    → m.stop_statis ≡ false
    → reports out ≡ []
    → Within 1 (report plan r m out)
unfolding report close_window
report_first plan r m out going nothing =
    branches (Within 1)
      (ltb 0 plan.average_end_tsc
        && ltb plan.average_end_tsc r.cur_tsc
        && (if m.stop_statis then false else true))
      (branches (Within 1) (plan.average_interval == 0) tt (
        finish-Within 1 plan r (close_window plan r m).0 (out ++ (close_window plan r m).1 ∷ []) (
          omega (
            arith,
            ap length (reports-append out ((close_window plan r m).1 ∷ [])),
            length-append (reports out) (reports ((close_window plan r m).1 ∷ [])),
            ap length nothing,
          ))))
      (finish-Within 1 plan r m out (omega (arith, ap length nothing, ap left going)))

report-Within :
    (plan : Plan) (r : Reading) (m : Meter) (out : List Print)
    → reports out ≡ []
    → Within (left m.stop_statis) (report plan r m out)
report-Within plan r m out nothing = elim (Bool-cases m.stop_statis) [
  | inl stopped ↦
      subst (Within (left m.stop_statis)) (sym (report_stopped plan r m out stopped))
        (finish-Within (left m.stop_statis) plan r m out (omega (arith, ap length nothing)))
  | inr going ↦
      subst (λ k. Within k (report plan r m out)) (sym (ap left going))
        (report_first plan r m out going nothing)
]

open_when_due-stop :
    (plan : Plan) (r : Reading) (m : Meter) → (open_when_due plan r m).stop_statis ≡ m.stop_statis
unfolding open_when_due open_window
open_when_due-stop plan r m =
    branches (λ (m' : Meter). m'.stop_statis ≡ m.stop_statis)
      (ltb 0 m.average_start_tsc && ltb m.average_start_tsc r.cur_tsc) refl refl

measure-Within :
    (plan : Plan) (r : Reading) (m : Meter) → Within (left m.stop_statis) (measure plan r m)
unfolding measure
measure-Within plan r m =
    let (same, nothing) = tick-Same plan r m in
    let m1 = (tick plan r m).0 in
    branches (Within (left m.stop_statis)) (ltb 0 plan.update_tsc)
      (subst (λ b. Within (left b) (report plan r (open_when_due plan r m1) (tick plan r m).1))
        (open_when_due-stop plan r m1 ∙ same.stop)
        (report-Within plan r (open_when_due plan r m1) (tick plan r m).1 nothing))
      (omega arith)

after-Within :
    (a : List Print) (k : ℕ) (o : Outcome)
    → Within k o
    → Within (length (reports a) + k) (after a o)
after-Within a k (goes_on m out) h =
    omega (arith, ap length (reports-append a out), length-append (reports a) (reports out), h)
after-Within a k (completed out) h =
    omega (arith, ap length (reports-append a out), length-append (reports a) (reports out), h)
after-Within a k divides_by_zero h = tt

Within-le : (j k : ℕ) (o : Outcome) → j ≤ k → Within j o → Within k o
Within-le j k (goes_on m out) le h = omega (arith, le, h)
Within-le j k (completed out) le h = omega (arith, le, h)
Within-le j k divides_by_zero le h = tt

printed-Within : (k : ℕ) (o : Outcome) → Within k o → length (reports (printed o)) ≤ k
printed-Within k (goes_on m out) h = omega (arith, h)
printed-Within k (completed out) h = h
printed-Within k divides_by_zero h = omega arith

then_go_on-Within :
    (k : ℕ) (o : Outcome) (f : Meter → Outcome)
    → Within k o
    → ((m : Meter) → Within (left m.stop_statis) (f m))
    → Within k (then_go_on o f)
then_go_on-Within k (goes_on m out) f h rest =
    Within-le (length (reports out) + left m.stop_statis) k (after out (f m)) h
      (after-Within out (left m.stop_statis) (f m) (rest m))
then_go_on-Within k (completed out) f h rest = h
then_go_on-Within k divides_by_zero f h rest = tt

measure_all-Within :
    (plan : Plan) (rs : List Reading) (m : Meter)
    → Within (left m.stop_statis) (measure_all plan rs m)
unfolding measure_all
measure_all-Within plan [] m = omega arith
measure_all-Within plan (r ∷ rs) m =
    then_go_on-Within (left m.stop_statis) (measure plan r m) (measure_all plan rs)
      (measure-Within plan r m) (measure_all-Within plan rs)

-- Whatever the time stamps, the counters and the settings: the measurement is reported at most
-- once.
pub measure_all-once :
    (plan : Plan) (rs : List Reading) (m : Meter)
    → length (reports (printed (measure_all plan rs m))) ≤ 1
measure_all-once plan rs m = printed-Within 1 (measure_all plan rs m) (
    Within-le (left m.stop_statis) 1 (measure_all plan rs m)
      (branches (λ k. k ≤ 1) m.stop_statis (omega arith) (omega arith))
      (measure_all-Within plan rs m))

report_divides :
    (plan : Plan) (r : Reading) (m : Meter) (out : List Print)
    → plan.average_interval ≡ 0
    → 0 < plan.average_end_tsc
    → plan.average_end_tsc < r.cur_tsc
    → m.stop_statis ≡ false
    → report plan r m out ≡ divides_by_zero
unfolding report
report_divides plan r m out zero_s some_end late going =
    rw (lt→ltb _ _ some_end, lt→ltb _ _ late, going, eq→== _ _ zero_s) refl

-- With an interval of 0 seconds the first round after the start of the loop divides by 0, whatever
-- is counted.
pub measure_all-divides_by_zero :
    (n_lcores n_rcv_cores tsc_hz began : ℕ) (nothing : ℕ → LatencyStat) (r : Reading)
    (rs : List Reading)
    → 0 < tsc_hz
    → 0 < began
    → began < 2 ^ 64
    → began < r.cur_tsc
    → measure_all
        (plan_of n_lcores n_rcv_cores 0 tsc_hz began)
        (r ∷ rs)
        (meter_of 0 tsc_hz began nothing)
      ≡ divides_by_zero
unfolding measure_all plan_of meter_of
measure_all-divides_by_zero n_lcores n_rcv_cores tsc_hz began nothing r rs counts some_start small
      late =
    let plan = plan_of n_lcores n_rcv_cores 0 tsc_hz began in
    let m = meter_of 0 tsc_hz began nothing in
    let m1 = (tick plan r m).0 in
    let ends : plan.average_end_tsc ≡ began = omega (arith, small) in
    ap (λ o. then_go_on o (measure_all plan rs))
      (measure_lem plan r m counts
        ∙ report_divides plan r (open_when_due plan r m1) (tick plan r m).1 refl
            (rw ends some_start) (rw ends late)
            (open_when_due-stop plan r m1 ∙ (tick-Same plan r m).0.stop))
