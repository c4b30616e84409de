-- ===== src/Meter.antt =====
-- The measurement that core 0 makes in `np_client_rx_loop` of dpdk_code/lock_server_code/server.c;
-- the loop of dpdk_code/client_code/client.c has the same text.
pub mod Sums
pub mod Cores
pub mod Prints
pub mod Rounds
pub mod Window
pub mod Once
mod Tests
use net_lock.Common.{
  ℕ, zero, suc, ◌+◌, ◌-◌, ◌*◌, ◌/◌, ◌%◌, ◌^◌, List, [], ◌∷◌, Option, none, some, Bool, true, false,
  ◌==◌, ◌&&◌, ◌++◌, ltb, if◌then◌else◌, write,
}
use net_lock.Latency.{LatencyStat}

-- What `throughput_statistics` counts: its first six fields.
pub record Count : Type 0 where
  pub tx : ℕ
  pub rx : ℕ
  pub rx_read : ℕ
  pub rx_write : ℕ
  pub txn : ℕ
  pub dropped : ℕ

-- A whole `throughput_statistics`: the counts, and the fields `last_...`.
pub record Throughput : Type 0 where
  pub now : Count
  pub last : Count

-- What is fixed before the loop.
pub record Plan : Type 0 where
  pub n_lcores : ℕ
  pub n_rcv_cores : ℕ
  pub average_interval : ℕ
  pub update_tsc : ℕ
  pub average_end_tsc : ℕ
  pub exit_tsc : ℕ

pub record Meter : Type 0 where
  pub tput_stat_avg : ℕ → Throughput
  pub tput_stat_total : Throughput
  pub latency_stat_avg : ℕ → LatencyStat
  pub next_update_tsc : ℕ
  pub average_start_tsc : ℕ
  pub latency_sample_start : Bool
  pub stop_statis : Bool
  pub last_rx : ℕ

-- What the other cores have counted when a round begins: `tput_stat` and `latency_stat_c`.
pub record Reading : Type 0 where
  pub cur_tsc : ℕ
  pub tput_stat : ℕ → Count
  pub latency_stat_c : ℕ → LatencyStat

-- The five figures of a core, or of all cores.
pub record Rates : Type 0 where
  pub tx : ℕ
  pub rx : ℕ
  pub rx_read : ℕ
  pub rx_write : ℕ
  pub txn_rate : ℕ

-- What a round prints: packets since the last second, or the figures of each core and of all.
pub data Print : Type 0 where
  rx_pers : ℕ → Print
  average : List Rates → Rates → Print

-- A round of core 0: it goes on, the test is completed, or a division by 0 stops the program.
pub data Outcome : Type 0 where
  goes_on : Meter → List Print → Outcome
  completed : List Print → Outcome
  divides_by_zero : Outcome

abbrev pub no_count : Count
no_count = record { tx = 0; rx = 0; rx_read = 0; rx_write = 0; txn = 0; dropped = 0 }

-- Before the loop, at the time stamp `cur_tsc`.
unfoldable pub plan_of : (n_lcores n_rcv_cores average_interval tsc_hz cur_tsc : ℕ) → Plan
plan_of n_lcores n_rcv_cores average_interval tsc_hz cur_tsc = record {
  n_lcores = n_lcores;
  n_rcv_cores = n_rcv_cores;
  average_interval = average_interval;
  update_tsc = tsc_hz;
  average_end_tsc = (cur_tsc + tsc_hz * average_interval * 2) % 2 ^ 64;
  exit_tsc = (cur_tsc + tsc_hz * average_interval * 20) % 2 ^ 64;
}

unfoldable pub meter_of : (average_interval tsc_hz cur_tsc : ℕ) → (ℕ → LatencyStat) → Meter
meter_of average_interval tsc_hz cur_tsc nothing = record {
  tput_stat_avg = λ _. record { now = no_count; last = no_count };
  tput_stat_total = record { now = no_count; last = no_count };
  latency_stat_avg = nothing;
  next_update_tsc = (cur_tsc + tsc_hz) % 2 ^ 64;
  average_start_tsc = (cur_tsc + tsc_hz * average_interval) % 2 ^ 64;
  latency_sample_start = false;
  stop_statis = false;
  last_rx = 0;
}

abbrev pub sum64 : ℕ → ℕ → ℕ
sum64 a b = (a + b) % 2 ^ 64

-- `total_tx`, `total_rx` and the others after the loop over the first `n` cores.
unfoldable pub totals : ℕ → (ℕ → Count) → Count
totals zero stat = no_count
totals (suc n) stat =
    let t = totals n stat in
    record {
      tx = sum64 t.tx (stat n).tx;
      rx = sum64 t.rx (stat n).rx;
      rx_read = sum64 t.rx_read (stat n).rx_read;
      rx_write = sum64 t.rx_write (stat n).rx_write;
      txn = sum64 t.txn (stat n).txn;
      dropped = sum64 t.dropped (stat n).dropped;
    }

-- `print_per_core_throughput` adds up the cores from `n_rcv_cores` on.
pub rx_from : (n_rcv_cores rounds : ℕ) → (ℕ → Count) → ℕ
rx_from k zero stat = 0
rx_from k (suc n) stat = sum64 (rx_from k n stat) (stat (k + n)).rx

unfoldable pub print_per_core_throughput : Plan → Reading → Meter → Meter × Print
unfolding rx_from
print_per_core_throughput plan r m =
    let total_rx = rx_from plan.n_rcv_cores (plan.n_lcores - plan.n_rcv_cores) r.tput_stat in
    (record m { last_rx = total_rx }, rx_pers ((total_rx + 2 ^ 64 - m.last_rx) % 2 ^ 64))

-- A core at the start of the measurement: `last_txn` stays, and `txn` is written in its place.
abbrev pub opened : Count → Throughput → Throughput
opened c t = record { now = record t.now { txn = c.txn }; last = record c { txn = t.last.txn } }

pub open_cores : ℕ → (ℕ → Count) → (ℕ → Throughput) → ℕ → Throughput
unfolding write
open_cores zero stat avg = avg
open_cores (suc n) stat avg = let a = open_cores n stat avg in write a n (opened (stat n) (a n))

pub open_latencies : ℕ → (ℕ → LatencyStat) → (ℕ → LatencyStat) → ℕ → LatencyStat
unfolding write
open_latencies zero stat avg = avg
open_latencies (suc n) stat avg =
    let a = open_latencies n stat avg in
    write a n (record (a n) { total = (stat n).total; num = (stat n).num })

unfoldable pub open_window : Plan → Reading → Meter → Meter
unfolding totals open_cores open_latencies
open_window plan r m = record m {
  tput_stat_avg = open_cores plan.n_lcores r.tput_stat m.tput_stat_avg;
  latency_stat_avg = open_latencies plan.n_lcores r.latency_stat_c m.latency_stat_avg;
  tput_stat_total = record m.tput_stat_total { last = totals plan.n_lcores r.tput_stat };
  average_start_tsc = 0;
  latency_sample_start = true;
}

-- The differences are of `uint64_t`.
abbrev pub rate : ℕ → ℕ → ℕ → ℕ
rate interval now last = (now + 2 ^ 64 - last) % 2 ^ 64 / interval

abbrev pub rates : ℕ → Throughput → Rates
rates interval t = record {
  tx = rate interval t.now.tx t.last.tx;
  rx = rate interval t.now.rx t.last.rx;
  rx_read = rate interval t.now.rx_read t.last.rx_read;
  rx_write = rate interval t.now.rx_write t.last.rx_write;
  txn_rate = rate interval t.now.txn t.last.txn;
}

-- The loop of the report, on the cores `i`, `i + 1`, ... as many as the first argument says.
pub close_cores :
    (rounds i interval : ℕ) → (ℕ → Count) → (ℕ → Throughput) → (ℕ → Throughput) × List Rates
unfolding write
close_cores zero i interval stat avg = (avg, [])
close_cores (suc n) i interval stat avg =
    let t : Throughput = record (avg i) { now = stat i } in
    let (avg', printed) = close_cores n (i + 1) interval stat (write avg i t) in
    (avg', rates interval t ∷ printed)

unfoldable pub close_window : Plan → Reading → Meter → Meter × Print
unfolding totals close_cores
close_window plan r m =
    let (avg, cores) =
      close_cores plan.n_lcores 0 plan.average_interval r.tput_stat m.tput_stat_avg in
    let total : Throughput = record m.tput_stat_total { now = totals plan.n_lcores r.tput_stat } in
    (
      record m { tput_stat_avg = avg; tput_stat_total = total; stop_statis = true },
      average cores (rates plan.average_interval total),
    )

-- The last test of a round: the program ends.
abbrev pub finish : Plan → Reading → Meter → List Print → Outcome
finish plan r m out =
    if ltb 0 plan.average_end_tsc && ltb plan.exit_tsc r.cur_tsc && m.stop_statis
    then completed out
    else goes_on m out

-- The report, at most once.
unfoldable pub report : Plan → Reading → Meter → List Print → Outcome
unfolding close_window
report plan r m out =
    if ltb 0 plan.average_end_tsc
      && ltb plan.average_end_tsc r.cur_tsc
      && ((if m.stop_statis then false else true))
    then (if plan.average_interval == 0
        then divides_by_zero
        else (let (m', p) = close_window plan r m in finish plan r m' (out ++ p ∷ [])))
    else finish plan r m out

-- The line of every second.
unfoldable pub tick : Plan → Reading → Meter → Meter × List Print
unfolding print_per_core_throughput
tick plan r m =
    if ltb m.next_update_tsc r.cur_tsc
    then (let (m', p) = print_per_core_throughput plan r m in
        (record m' { next_update_tsc = sum64 m'.next_update_tsc plan.update_tsc }, p ∷ []))
    else (m, [])

unfoldable pub open_when_due : Plan → Reading → Meter → Meter
unfolding open_window
open_when_due plan r m =
    if ltb 0 m.average_start_tsc && ltb m.average_start_tsc r.cur_tsc
    then open_window plan r m
    else m

-- A round of core 0.
unfoldable pub measure : Plan → Reading → Meter → Outcome
unfolding tick open_when_due report
measure plan r m0 =
    if ltb 0 plan.update_tsc
    then (let (m1, out) = tick plan r m0 in report plan r (open_when_due plan r m1) out)
    else goes_on m0 []

abbrev pub after : List Print → Outcome → Outcome
after out (goes_on m out') = goes_on m (out ++ out')
after out (completed out') = completed (out ++ out')
after out divides_by_zero = divides_by_zero

abbrev pub then_go_on : Outcome → (Meter → Outcome) → Outcome
then_go_on (goes_on m out) k = after out (k m)
then_go_on (completed out) k = completed out
then_go_on divides_by_zero k = divides_by_zero

-- The `while (1)`, on the readings that its rounds find.
unfoldable pub measure_all : Plan → List Reading → Meter → Outcome
unfolding measure
measure_all plan [] m = goes_on m []
measure_all plan (r ∷ rs) m = then_go_on (measure plan r m) (measure_all plan rs)
