-- ===== src/Client/Loop.antt =====
-- dpdk_code/client_code/client.c: a round of `np_client_rx_loop` on one core, the measurement of
-- core 0 included. What the card gives in a burst is an argument.
pub mod Rounds
mod Tests
use net_lock.Common.{
  ℕ, List, [], ◌∷◌, ◌++◌, Option, none, some, Bool, false, ◌==◌, if◌then◌else◌, write,
}
use net_lock.Wire.{Env, Packet}
use net_lock.Latency.{LatencyStat}
use net_lock.Transmit.{Card, Core}
use net_lock.Meter.{Plan, Meter, Reading, Count, Print, Outcome, goes_on, measure}
use net_lock.Polling.{Turned, turned, completed, divides_by_zero, faults, rounds, put_answers, poll}
use net_lock.Client.{Config, Client}
use net_lock.Client.Receive.{Frame, drain_round, receive}

-- A packet of a burst, with the clock and the memory that its handling finds.
pub record Arrival : Type 0 where
  pub env : Env
  pub has_memory : Bool
  pub frame : Frame

-- A round as a core finds it: its time stamp, the counts of the other cores, the flag
-- `latency_sample_start` that core 0 sets for them, the clock of the drain, the bursts.
pub record Turn : Type 0 where
  pub cur_tsc : ℕ
  pub tput_stat : ℕ → Count
  pub latency_stat_c : ℕ → LatencyStat
  pub latency_sample_start : Bool
  pub env : Env
  pub bursts : List (List Arrival)

-- What is fixed before the loop.
pub record Fixed : Type 0 where
  pub lcore_id : ℕ
  pub drain_tsc : ℕ
  pub plan : Plan
  pub config : Config

pub record ClientCore : Type 0 where
  pub client : Client
  pub tx : Core
  pub next_drain_tsc : ℕ
  pub meter : Meter

-- `tput_stat[lcore_id]`; the sending cores count the transactions.
abbrev pub own_count : ClientCore → Count
own_count x = record {
  tx = x.tx.tx;
  rx = x.client.rx;
  rx_read = x.client.rx_read;
  rx_write = x.client.rx_write;
  txn = 0;
  dropped = x.tx.dropped;
}

abbrev pub reading : Turn → ClientCore → Reading
reading t x = record {
  cur_tsc = t.cur_tsc;
  tput_stat = write t.tput_stat 0 (own_count x);
  latency_stat_c = write t.latency_stat_c 0 x.client.latency;
}

-- Core 0 measures.
unfoldable pub measured : Fixed → Turn → ClientCore → Outcome
unfolding measure write
measured fixed t x =
    if fixed.lcore_id == 0 then measure fixed.plan (reading t x) x.meter else goes_on x.meter []

-- The client with the flag as the round finds it after the measurement.
abbrev pub sampling : Fixed → Turn → Meter → Client → Client
sampling fixed t m c = record c {
  sample_start = if fixed.lcore_id == 0 then m.latency_sample_start else t.latency_sample_start;
}

unfoldable pub handle : Config → (cur_tsc : ℕ) → Arrival → Client → Option (Client × List Packet)
unfolding receive
handle cfg cur_tsc a c =
    receive a.env cfg (record { cur_tsc = cur_tsc; has_memory = a.has_memory }) a.frame c

abbrev pub polled : Meter → List Print → Option (ℕ × Client × Core) → Turned Print ClientCore
polled m out none = faults
polled m out (some (next, c, tx)) =
    turned (record { client = c; tx = tx; next_drain_tsc = next; meter = m }) out

-- After the think queue is drained: the timer, and the bursts.
abbrev pub after_drain :
    Card → Fixed → Turn → (next_drain_tsc : ℕ) → Option (Client × Core) → Option (ℕ × Client × Core)
after_drain card fixed t next none = none
after_drain card fixed t next (some (c, tx)) =
    poll card (handle fixed.config t.cur_tsc) fixed.drain_tsc t.cur_tsc t.bursts next c tx

abbrev pub after_measure : Card → Fixed → Turn → ClientCore → Outcome → Turned Print ClientCore
after_measure card fixed t x (goes_on m out) = polled m out (
    after_drain card fixed t x.next_drain_tsc (
      put_answers card x.tx
        (drain_round t.env fixed.config t.cur_tsc (sampling fixed t m x.client))))
after_measure card fixed t x (Outcome.completed out) = completed out
after_measure card fixed t x Outcome.divides_by_zero = divides_by_zero

-- The body of `while (1)`.
unfoldable pub turn : Card → Fixed → Turn → ClientCore → Turned Print ClientCore
unfolding measured drain_round poll handle
turn card fixed t x = after_measure card fixed t x (measured fixed t x)

-- `while (1)`, on the rounds that the core finds.
unfoldable pub np_client_rx_loop : Card → Fixed → List Turn → ClientCore → Turned Print ClientCore
unfolding turn rounds
np_client_rx_loop card fixed ts x = rounds (turn card fixed) ts x
