-- ===== src/Combined/Report.antt =====
-- What the report of the combined program shows of the window between two readings.
use net_lock.Common.{
  ℕ, zero, suc, ◌+◌, ◌<◌, ◌≤◌, ◌≡◌, ◌∙◌, inl, inr, refl, sym, ap, subst, List, [], ◌∷◌, ◌++◌, some,
  false, arith, write, write-ne, get_elem?, Bool-cases, ==→eq, lt→ltb, ltb, ◌==◌, ◌&&◌,
}
use native.Mathlib.Nat.{add-zero}
use net_lock.Meter.{Count, Throughput, Plan, Meter, Reading, totals, rate, tick}
use net_lock.Meter.Rounds.{tick-Same}
use net_lock.Polling.{Turned, turned, completed, divides_by_zero, faults, printed_before}
use net_lock.Combined.Measure.{
  Figures, Line, average, opened, open_cores, open_window, closed, figures, close_cores, median,
  close_window, finish, report, open_when_due, seconds, measure,
}

open_cores-le :
    (n : ℕ) (stat : ℕ → Count) (avg : ℕ → Throughput) (i : ℕ)
    → n ≤ i
    → open_cores n stat avg i ≡ avg i
unfolding open_cores
open_cores-le zero stat avg i h = refl
open_cores-le (suc n) stat avg i h =
    let a = open_cores n stat avg in
    write-ne a n i (opened (stat n) (a n)) (λ e. omega (arith, e))
    ∙ open_cores-le n stat avg i (omega arith)

open_cores-lt :
    (n : ℕ) (stat : ℕ → Count) (avg : ℕ → Throughput) (i : ℕ)
    → i < n
    → open_cores n stat avg i ≡ opened (stat i) (avg i)
unfolding open_cores write
open_cores-lt zero stat avg i h = elim h [ ]
open_cores-lt (suc n) stat avg i h = elim (Bool-cases (i == n)) [
  | inl e ↦
      let same : n ≡ i = sym (==→eq i n e) in
      rw e (
        rw same (
          ap (opened (stat i)) (
            subst (λ k. open_cores k stat avg i ≡ avg i) same
              (open_cores-le n stat avg i (omega (arith, same))))))
  | inr ne ↦ rw ne (open_cores-lt n stat avg i (ground arith))
]

close_cores-at :
    (n i interval : ℕ) (stat : ℕ → Count) (avg : ℕ → Throughput) (j : ℕ)
    → j < n
    → get_elem? (close_cores n i interval stat avg).1 j
      ≡ some (figures interval (closed (stat (i + j)) (avg (i + j))))
unfolding close_cores
close_cores-at zero i interval stat avg j h = elim h [ ]
close_cores-at (suc n) i interval stat avg zero h = rw (add-zero i) refl
close_cores-at (suc n) i interval stat avg (suc j) h =
    let t = closed (stat i) (avg i) in
    let e : i + suc j ≡ i + 1 + j = omega arith in
    let away : write avg i t (i + 1 + j) ≡ avg (i + 1 + j) =
      write-ne avg i _ t (λ e. omega (arith, e)) in
    rw e (
      close_cores-at n (i + 1) interval stat (write avg i t) j (omega arith)
      ∙ ap (λ a. some (figures interval (closed (stat (i + 1 + j)) a))) away)

abbrev pub lines_of : Turned Line Meter → List Line
lines_of (turned m out) = out
lines_of (completed out) = out
lines_of divides_by_zero = []
lines_of faults = []

-- The figures of a core: those of the window, but `rx_read` from what `last_rx_read` held before.
abbrev pub shown : Plan → Reading → Reading → (ℕ → Throughput) → ℕ → Figures
shown plan r1 r2 avg i = record {
  tx = rate plan.average_interval (r2.tput_stat i).tx (r1.tput_stat i).tx;
  rx = rate plan.average_interval (r2.tput_stat i).rx (r1.tput_stat i).rx;
  rx_read = rate plan.average_interval (r2.tput_stat i).rx_read (avg i).last.rx_read;
}

-- The figures of all cores.
abbrev pub shown_total : Plan → Reading → Reading → Figures
shown_total plan r1 r2 =
    let t1 = totals plan.n_lcores r1.tput_stat in
    let t2 = totals plan.n_lcores r2.tput_stat in
    record {
      tx = rate plan.average_interval t2.tx t1.tx;
      rx = rate plan.average_interval t2.rx t1.rx;
      rx_read = rate plan.average_interval t2.rx_read t1.rx_read;
    }

finish-lines :
    (plan : Plan) (r : Reading) (m : Meter) (out : List Line) → lines_of (finish plan r m out) ≡ out
finish-lines plan r m out =
    elim (Bool-cases (ltb 0 plan.average_end_tsc && ltb plan.exit_tsc r.cur_tsc && m.stop_statis)) [
      | inl over ↦ rw over refl
      | inr more ↦ rw more refl
    ]

lines-printed_before :
    (front out : List Line) (o : Turned Line Meter)
    → lines_of o ≡ out
    → (k : List Line) × (lines_of (printed_before front o) ≡ k ++ out)
lines-printed_before front out (turned m out') e = (front, ap (λ l. front ++ l) e)
lines-printed_before front out (completed out') e = (front, ap (λ l. front ++ l) e)
lines-printed_before front out divides_by_zero e = ([], e)
lines-printed_before front out faults e = ([], e)

report_before :
    (plan : Plan) (r : Reading) (samples : List (List ℕ)) (m : Meter)
    → r.cur_tsc ≤ plan.average_end_tsc
    → m.stop_statis ≡ false
    → report plan r samples m ≡ turned m []
unfolding report
report_before plan r samples m early going = ground (arith, going)

report_due :
    (plan : Plan) (r : Reading) (samples : List (List ℕ)) (m : Meter)
    → plan.average_end_tsc < r.cur_tsc
    → 0 < plan.average_end_tsc
    → 0 < plan.average_interval
    → m.stop_statis ≡ false
    → report plan r samples m
      ≡ finish plan r (close_window plan r samples m).0 ((close_window plan r samples m).1 ∷ [])
unfolding report
report_due plan r samples m late some_end divides going =
    let tested : (plan.average_interval == 0) ≡ false = ground (arith, divides) in
    rw (lt→ltb _ _ late, lt→ltb _ _ some_end, going, tested) refl

opens :
    (plan : Plan) (r : Reading) (m : Meter)
    → 0 < m.average_start_tsc
    → m.average_start_tsc < r.cur_tsc
    → open_when_due plan r m ≡ open_window plan r m
unfolding open_when_due
opens plan r m some_start late = rw (lt→ltb _ _ some_start, lt→ltb _ _ late) refl

stays :
    (plan : Plan) (r : Reading) (m : Meter) → m.average_start_tsc ≡ 0 → open_when_due plan r m ≡ m
unfolding open_when_due
stays plan r m opened = rw opened refl

module _ (plan : Plan) (r1 r2 : Reading) (samples1 samples2 : List (List ℕ)) (m : Meter)
    (counts : 0 < plan.update_tsc) (divides : 0 < plan.average_interval)
    (some_start : 0 < m.average_start_tsc) (late : m.average_start_tsc < r1.cur_tsc)
    (within : r1.cur_tsc ≤ plan.average_end_tsc) (after : plan.average_end_tsc < r2.cur_tsc)
    (going : m.stop_statis ≡ false) where
  abbrev ticked : Meter
  ticked = (tick plan r1 m).0

  first_round :
      measure plan r1 samples1 m
      ≡ turned (open_window plan r1 ticked) (seconds (tick plan r1 m).1 ++ [])
  unfolding measure open_window
  first_round =
      let same = (tick-Same plan r1 m).0 in
      let due =
        opens plan r1 ticked (subst (λ k. 0 < k) (sym same.start) some_start)
          (subst (λ k. k < r1.cur_tsc) (sym same.start) late) in
      rw (lt→ltb 0 plan.update_tsc counts) (
        ap (λ k. printed_before (seconds (tick plan r1 m).1) (report plan r1 samples1 k)) due
        ∙ ap (printed_before (seconds (tick plan r1 m).1)) (
            report_before plan r1 samples1 (open_window plan r1 ticked) within (same.stop ∙ going)))

  abbrev opened_meter : Meter
  opened_meter = open_window plan r1 ticked

  abbrev closing : Meter
  closing = (tick plan r2 opened_meter).0

  second_round :
      (front : List Line) × (lines_of (measure plan r2 samples2 opened_meter)
        ≡ front ++ (close_window plan r2 samples2 closing).1 ∷ [])
  unfolding measure open_window
  second_round =
      let same = (tick-Same plan r1 m).0 in
      let same' = (tick-Same plan r2 opened_meter).0 in
      let p = (close_window plan r2 samples2 closing).1 in
      let reported : lines_of (report plan r2 samples2 (open_when_due plan r2 closing)) ≡ p ∷ [] =
        ap (λ k. lines_of (report plan r2 samples2 k)) (stays plan r2 closing same'.start)
        ∙ (ap lines_of (
              report_due plan r2 samples2 closing after (omega (arith, within, some_start, late))
                divides (same'.stop ∙ (same.stop ∙ going)))
            ∙ finish-lines plan r2 (close_window plan r2 samples2 closing).0 (p ∷ [])) in
      rw (lt→ltb 0 plan.update_tsc counts) (
        lines-printed_before (seconds (tick plan r2 opened_meter).1) (p ∷ [])
          (report plan r2 samples2 (open_when_due plan r2 closing)) reported)

  cores-shown :
      (i : ℕ)
      → i < plan.n_lcores
      → get_elem?
          (close_cores plan.n_lcores 0 plan.average_interval r2.tput_stat closing.tput_stat_avg).1
          i
        ≡ some (shown plan r1 r2 m.tput_stat_avg i)
  unfolding open_window
  cores-shown i h =
      let same = (tick-Same plan r1 m).0 in
      let same' = (tick-Same plan r2 opened_meter).0 in
      let at : closing.tput_stat_avg i ≡ opened (r1.tput_stat i) (m.tput_stat_avg i) =
        ap (λ (a : ℕ → Throughput). a i) same'.avg
        ∙ (open_cores-lt plan.n_lcores r1.tput_stat ticked.tput_stat_avg i h
            ∙ ap (λ (a : ℕ → Throughput). opened (r1.tput_stat i) (a i)) same.avg) in
      let zeroth : 0 + i ≡ i = omega arith in
      close_cores-at plan.n_lcores 0 plan.average_interval r2.tput_stat closing.tput_stat_avg i h
      ∙ (ap
            (λ k.
              some
                (figures plan.average_interval (closed (r2.tput_stat k) (closing.tput_stat_avg k))))
            zeroth
          ∙ ap (λ a. some (figures plan.average_interval (closed (r2.tput_stat i) a))) at)

  -- A round behind the start of the window and not behind its end, and one behind its end, where the
  -- line of every second and the interval are not switched off and nothing was reported: the second
  -- prints one report, last, with the median of the samples that it finds. The three figures of all
  -- cores are what they counted between the two rounds, divided by the interval; so are `tx` and `rx`
  -- of each core, but its `rx_read` counts from what `last_rx_read` held before.
  pub measure-shown :
      (i : ℕ)
      → i < plan.n_lcores
      → (m1 : Meter) × (out : List Line) × (measure plan r1 samples1 m ≡ turned m1 out)
        × (front : List Line) × (cores : List Figures) × (lines_of (measure plan r2 samples2 m1)
            ≡ front ++ average cores (shown_total plan r1 r2) (median samples2) ∷ [])
        × (get_elem? cores i ≡ some (shown plan r1 r2 m.tput_stat_avg i))
  unfolding close_window open_window
  measure-shown i h =
      let same' = (tick-Same plan r2 opened_meter).0 in
      let (front, e) = second_round in
      let cores =
        (close_cores plan.n_lcores 0 plan.average_interval r2.tput_stat closing.tput_stat_avg).1 in
      (
        opened_meter,
        seconds (tick plan r1 m).1 ++ [],
        first_round,
        front,
        cores,
        e
            ∙ ap
                (λ (t : Throughput).
                  front
                  ++ average cores
                      (figures plan.average_interval (closed (totals plan.n_lcores r2.tput_stat) t))
                      (median samples2)
                    ∷ [])
                same'.total,
        cores-shown i h,
      )
