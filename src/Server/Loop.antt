-- ===== src/Server/Loop.antt =====
-- dpdk_code/lock_server_code/server.c: the rounds of `np_client_rx_loop` on one core, the
-- measurement of core 0 included. What the card gives in a burst is an argument.
pub mod Rounds
pub mod Exclusion
pub mod Tests
use net_lock.Common.{
  ℕ, List, [], ◌∷◌, ◌++◌, Option, none, some, ◌==◌, if◌then◌else◌, write, ◌%◌, ◌+◌, ◌^◌,
}
use net_lock.Wire.{Env, Packet}
use net_lock.Latency.{LatencyStat}
use net_lock.Transmit.{Card, Core}
use net_lock.Meter.{
  Plan, Meter, Reading, Count, Print, Outcome, goes_on, measure, plan_of, meter_of,
}
use net_lock.Polling.{
  Turned, turned, completed, divides_by_zero, faults, rounds, poll, drain_tsc_of,
}
use net_lock.Server.{Frame, Round, Server}
use net_lock.Server.Process.{process}

-- A packet of a burst, with the clock and the memory that its handling finds.
pub record Arrival : Type 0 where
  pub env : Env
  pub round : Round
  pub frame : Frame

-- A round as a core finds it: its time stamp, the counts of the other cores, the bursts.
pub record Turn : Type 0 where
  pub cur_tsc : ℕ
  pub tput_stat : ℕ → Count
  pub latency_stat_c : ℕ → LatencyStat
  pub bursts : List (List Arrival)

-- What is fixed before the loop.
pub record Fixed : Type 0 where
  pub lcore_id : ℕ
  pub drain_tsc : ℕ
  pub plan : Plan

pub record ServerCore : Type 0 where
  pub server : Server
  pub tx : Core
  pub next_drain_tsc : ℕ
  pub meter : Meter

-- Before the loop, at the time stamp `cur_tsc`.
unfoldable pub fixed_of :
    (lcore_id n_lcores n_rcv_cores average_interval tsc_hz cur_tsc : ℕ) → Fixed
unfolding plan_of drain_tsc_of
fixed_of lcore_id n_lcores n_rcv_cores average_interval tsc_hz cur_tsc = record {
  lcore_id = lcore_id;
  drain_tsc = drain_tsc_of tsc_hz;
  plan = plan_of n_lcores n_rcv_cores average_interval tsc_hz cur_tsc;
}

-- `tput_stat[lcore_id]`; the server counts no transactions.
abbrev pub own_count : ServerCore → Count
own_count x = record {
  tx = x.tx.tx;
  rx = x.server.rx;
  rx_read = x.server.rx_read;
  rx_write = x.server.rx_write;
  txn = 0;
  dropped = x.tx.dropped;
}

abbrev pub reading : Turn → ServerCore → Reading
reading t x = record {
  cur_tsc = t.cur_tsc;
  tput_stat = write t.tput_stat 0 (own_count x);
  latency_stat_c = t.latency_stat_c;
}

-- Core 0 measures.
unfoldable pub measured : Fixed → Turn → ServerCore → Outcome
unfolding measure write
measured fixed t x =
    if fixed.lcore_id == 0 then measure fixed.plan (reading t x) x.meter else goes_on x.meter []

unfoldable pub handle : Arrival → Server → Option (Server × List Packet)
unfolding process
handle a s = process a.env a.round a.frame s

abbrev pub polled : Meter → List Print → Option (ℕ × Server × Core) → Turned Print ServerCore
polled m out none = faults
polled m out (some (next, s, c)) =
    turned (record { server = s; tx = c; next_drain_tsc = next; meter = m }) out

abbrev pub after_measure : Card → Fixed → Turn → ServerCore → Outcome → Turned Print ServerCore
after_measure card fixed t x (goes_on m out) =
    polled m out
      (poll card handle fixed.drain_tsc t.cur_tsc t.bursts x.next_drain_tsc x.server x.tx)
after_measure card fixed t x (Outcome.completed out) = completed out
after_measure card fixed t x Outcome.divides_by_zero = divides_by_zero

-- The body of `while (1)`.
unfoldable pub turn : Card → Fixed → Turn → ServerCore → Turned Print ServerCore
unfolding measured poll handle
turn card fixed t x = after_measure card fixed t x (measured fixed t x)

-- `while (1)`, on the rounds that the core finds.
unfoldable pub np_client_rx_loop : Card → Fixed → List Turn → ServerCore → Turned Print ServerCore
unfolding turn rounds
np_client_rx_loop card fixed ts x = rounds (turn card fixed) ts x
