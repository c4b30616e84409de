-- ===== src/Combined/Measure.antt =====
-- The measurement that core 0 makes in `np_client_rx_loop` of dpdk_code/client_code/simple_socket.c:
-- three figures, and the median of the latency samples.
use net_lock.Common.{
  ℕ, zero, suc, ◌+◌, ◌/◌, List, [], ◌∷◌, true, false, ◌==◌, ◌&&◌, ltb, if◌then◌else◌, write,
}
use net_lock.Latency.Collect.{gather, sort}
use net_lock.Meter.{Count, Throughput, Plan, Meter, Reading, Print, totals, rate, tick}
use net_lock.Polling.{Turned, turned, completed, divides_by_zero, printed_before}

-- The figures of a core, or of all.
pub record Figures : Type 0 where
  pub tx : ℕ
  pub rx : ℕ
  pub rx_read : ℕ

-- The lines of a round: that of every second, or the report with its median.
pub data Line : Type 0 where
  second : Print → Line
  average : List Figures → Figures → (median : ℕ) → Line

-- A core at the start of the window: the fields `last_rx_read` to `last_txn` keep what they hold.
abbrev pub opened : Count → Throughput → Throughput
opened c t = record {
  now = record t.now { txn = c.txn };
  last = record t.last { tx = c.tx; rx = c.rx };
}

unfoldable pub open_cores : ℕ → (ℕ → Count) → (ℕ → Throughput) → ℕ → Throughput
unfolding write
open_cores zero stat avg = avg
open_cores (suc n) stat avg = let a = open_cores n stat avg in write a n (opened (stat n) (a n))

unfoldable pub open_window : Plan → Reading → Meter → Meter
unfolding totals open_cores
open_window plan r m =
    let t = totals plan.n_lcores r.tput_stat in
    record m {
      tput_stat_avg = open_cores plan.n_lcores r.tput_stat m.tput_stat_avg;
      tput_stat_total = record m.tput_stat_total {
        last = record m.tput_stat_total.last { tx = t.tx; rx = t.rx; rx_read = t.rx_read };
      };
      average_start_tsc = 0;
      latency_sample_start = true;
    }

abbrev pub closed : Count → Throughput → Throughput
closed c t = record t { now = record t.now { tx = c.tx; rx = c.rx; rx_read = c.rx_read } }

abbrev pub figures : ℕ → Throughput → Figures
figures interval t = record {
  tx = rate interval t.now.tx t.last.tx;
  rx = rate interval t.now.rx t.last.rx;
  rx_read = rate interval t.now.rx_read t.last.rx_read;
}

-- The loop of the report, on the cores `i`, `i + 1`, ... as many as the first argument says.
unfoldable pub close_cores :
    (rounds i interval : ℕ) → (ℕ → Count) → (ℕ → Throughput) → (ℕ → Throughput) × List Figures
unfolding write
close_cores zero i interval stat avg = (avg, [])
close_cores (suc n) i interval stat avg =
    let t = closed (stat i) (avg i) in
    let (avg', printed) = close_cores n (i + 1) interval stat (write avg i t) in
    (avg', figures interval t ∷ printed)

-- `latency_samples_together[latency_samples_together_len / 2]` after the sort; the array begins with
-- zeros, and is taken to have room for all samples.
unfoldable pub median : List (List ℕ) → ℕ
unfolding gather sort
median samples = let (a, n) = gather samples (λ _. 0) 0 in sort n a (n / 2)

unfoldable pub close_window : Plan → Reading → List (List ℕ) → Meter → Meter × Line
unfolding totals close_cores median
close_window plan r samples m =
    let (avg, cores) =
      close_cores plan.n_lcores 0 plan.average_interval r.tput_stat m.tput_stat_avg in
    let total = closed (totals plan.n_lcores r.tput_stat) m.tput_stat_total in
    (
      record m { tput_stat_avg = avg; tput_stat_total = total; stop_statis = true },
      average cores (figures plan.average_interval total) (median samples),
    )

-- The last test of a round: the program ends.
abbrev pub finish : Plan → Reading → Meter → List Line → Turned Line Meter
finish plan r m out =
    if ltb 0 plan.average_end_tsc && ltb plan.exit_tsc r.cur_tsc && m.stop_statis
    then completed out
    else turned m out

unfoldable pub report : Plan → Reading → List (List ℕ) → Meter → Turned Line Meter
unfolding close_window
report plan r samples m =
    if ltb 0 plan.average_end_tsc
      && ltb plan.average_end_tsc r.cur_tsc
      && ((if m.stop_statis then false else true))
    then (if plan.average_interval == 0
        then divides_by_zero
        else (let (m', p) = close_window plan r samples m in finish plan r m' (p ∷ [])))
    else finish plan r m []

unfoldable pub open_when_due : Plan → Reading → Meter → Meter
unfolding open_window
open_when_due plan r m =
    if ltb 0 m.average_start_tsc && ltb m.average_start_tsc r.cur_tsc
    then open_window plan r m
    else m

abbrev pub seconds : List Print → List Line
seconds [] = []
seconds (p ∷ ps) = second p ∷ seconds ps

-- A round of core 0, with the samples of the receiving cores.
unfoldable pub measure : Plan → Reading → List (List ℕ) → Meter → Turned Line Meter
unfolding tick open_when_due report
measure plan r samples m0 =
    if ltb 0 plan.update_tsc
    then (let (m1, out) = tick plan r m0 in
        printed_before (seconds out) (report plan r samples (open_when_due plan r m1)))
    else turned m0 []
