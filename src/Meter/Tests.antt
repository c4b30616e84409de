-- ===== src/Meter/Tests.antt =====
-- A measurement of two cores over ten seconds.
use net_lock.Common.{ℕ, ◌+◌, ◌*◌, ◌^◌, ◌<◌, ◌≤◌, ◌≡◌, refl, false, List, [], ◌∷◌, arith}
use net_lock.Latency.{LatencyStat}
use net_lock.Meter.{Count, Plan, Meter, Reading, Rates, plan_of, meter_of, measure_all}
use net_lock.Meter.Sums.{Figure, counted, sum}
use net_lock.Meter.Prints.{reports, printed}
use net_lock.Meter.Window.{ShowsTotal, ShowsCores, measure_all-reports}

abbrev nothing : ℕ → LatencyStat
nothing i = record { max = 0; num = 0; total = 0; overflow = 0; bin = λ _. 0 }

abbrev plan : Plan
plan = record {
  n_lcores = 2;
  n_rcv_cores = 1;
  average_interval = 10;
  update_tsc = 100;
  average_end_tsc = 2050;
  exit_tsc = 20050;
}

plan_of-plan : plan_of 2 1 10 100 50 ≡ plan
unfolding plan_of
plan_of-plan = refl

abbrev none : Count
none = record { tx = 0; rx = 0; rx_read = 0; rx_write = 0; txn = 0; dropped = 0 }

abbrev meter : Meter
meter = record {
  tput_stat_avg = λ _. record { now = none; last = none };
  tput_stat_total = record { now = none; last = none };
  latency_stat_avg = nothing;
  next_update_tsc = 150;
  average_start_tsc = 1050;
  latency_sample_start = false;
  stop_statis = false;
  last_rx = 0;
}

meter_of-meter : meter_of 10 100 50 nothing ≡ meter
unfolding meter_of
meter_of-meter = refl

-- Core `i` has counted `(i + 1) * k` of everything at time `t`.
abbrev at_time : (t k : ℕ) → Reading
at_time t k = record {
  cur_tsc = t;
  tput_stat = λ i. record {
    tx = (i + 1) * k;
    rx = (i + 1) * k;
    rx_read = (i + 1) * k;
    rx_write = (i + 1) * k;
    txn = (i + 1) * k;
    dropped = 0;
  };
  latency_stat_c = nothing;
}

grows_in :
    (g : Figure) (i t u j k : ℕ)
    → j ≤ k
    → counted g ((at_time t j).tput_stat i) ≤ counted g ((at_time u k).tput_stat i)
grows_in Figure.sent i t u j k h = grind arith
grows_in Figure.received i t u j k h = grind arith
grows_in Figure.read i t u j k h = grind arith
grows_in Figure.written i t u j k h = grind arith
grows_in Figure.finished i t u j k h = grind arith

small : (g : Figure) → sum 2 (λ i. counted g ((at_time 2060 700).tput_stat i)) < 2 ^ 64
small Figure.sent = omega arith
small Figure.received = omega arith
small Figure.read = omega arith
small Figure.written = omega arith
small Figure.finished = omega arith

measure_all-reports_example :
    (cores : List Rates) × (total : Rates) × (reports (
        printed (
          measure_all plan
            (at_time 160 10 ∷ at_time 1060 200 ∷ at_time 1070 210 ∷ at_time 2060 700 ∷ [])
            meter))
      ≡ (cores, total) ∷ [])
    × ShowsTotal 2 10 (at_time 1060 200).tput_stat (at_time 2060 700).tput_stat total
    × ShowsCores 2 10 (at_time 1060 200).tput_stat (at_time 2060 700).tput_stat cores
measure_all-reports_example =
    measure_all-reports plan meter (at_time 1060 200) (at_time 2060 700) (at_time 160 10 ∷ [])
      (at_time 1070 210 ∷ []) (omega arith) (omega arith) (omega arith) refl (λ i. refl)
      (omega arith) (omega arith) (omega arith) (omega arith) (omega arith)
      (record { grows = λ g i lt. grows_in g i 1060 2060 200 700 (omega arith); fits = small })
