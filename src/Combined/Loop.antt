-- ===== src/Combined/Loop.antt =====
-- The rounds of `np_client_rx_loop` of dpdk_code/client_code/simple_socket.c on one core.
use net_lock.Common.{ℕ, List, [], Option, none, some, Bool, ◌==◌, if◌then◌else◌, write}
use net_lock.Wire.{Env}
use net_lock.Latency.{LatencyStat}
use net_lock.Transmit.{Card, Core}
use net_lock.Meter.{Plan, Meter, Count}
use net_lock.Polling.{Turned, turned, completed, divides_by_zero, faults, rounds, put_answers, poll}
use net_lock.Client.{Config}
use net_lock.Combined.{Node, Arrival, role_client}
use net_lock.Combined.Handling.{handle, drain}
use net_lock.Combined.Measure.{Line, measure}

-- A round as a core finds it; `samples` are those of all receiving cores.
pub record Turn : Type 0 where
  pub cur_tsc : ℕ
  pub tput_stat : ℕ → Count
  pub latency_stat_c : ℕ → LatencyStat
  pub latency_sample_start : Bool
  pub samples : List (List ℕ)
  pub env : Env
  pub bursts : List (List Arrival)

-- What is fixed before the loop.
pub record Fixed : Type 0 where
  pub role : ℕ
  pub lcore_id : ℕ
  pub drain_tsc : ℕ
  pub plan : Plan
  pub config : Config

pub record NodeCore : Type 0 where
  pub node : Node
  pub tx : Core
  pub next_drain_tsc : ℕ
  pub meter : Meter

-- `tput_stat[lcore_id]`, in the half of the role.
abbrev pub own_count : (role : ℕ) → NodeCore → Count
own_count role x = record {
  tx = x.tx.tx;
  rx = if role == role_client then x.node.client.rx else x.node.server.rx;
  rx_read = if role == role_client then x.node.client.rx_read else x.node.server.rx_read;
  rx_write = if role == role_client then x.node.client.rx_write else x.node.server.rx_write;
  txn = 0;
  dropped = x.tx.dropped;
}

-- Core 0 measures.
unfoldable pub measured : Fixed → Turn → NodeCore → Turned Line Meter
unfolding measure write
measured fixed t x =
    if fixed.lcore_id == 0
    then measure fixed.plan
        (record {
          cur_tsc = t.cur_tsc;
          tput_stat = write t.tput_stat 0 (own_count fixed.role x);
          latency_stat_c = write t.latency_stat_c 0 x.node.client.latency;
        })
        t.samples x.meter
    else turned x.meter []

-- The node with the flag as the round finds it after the measurement.
abbrev pub sampling : Fixed → Turn → Meter → Node → Node
sampling fixed t m n = record n {
  client = record n.client {
    sample_start = if fixed.lcore_id == 0 then m.latency_sample_start else t.latency_sample_start;
  };
}

abbrev pub polled : Meter → List Line → Option (ℕ × Node × Core) → Turned Line NodeCore
polled m out none = faults
polled m out (some (next, n, c)) =
    turned (record { node = n; tx = c; next_drain_tsc = next; meter = m }) out

abbrev pub after_drain :
    Card → Fixed → Turn → (next_drain_tsc : ℕ) → Option (Node × Core) → Option (ℕ × Node × Core)
after_drain card fixed t next none = none
after_drain card fixed t next (some (n, tx)) =
    poll card (handle fixed.role fixed.config t.cur_tsc) fixed.drain_tsc t.cur_tsc t.bursts next n
      tx

abbrev pub after_measure : Card → Fixed → Turn → NodeCore → Turned Line Meter → Turned Line NodeCore
after_measure card fixed t x (turned m out) = polled m out (
    after_drain card fixed t x.next_drain_tsc (
      put_answers card x.tx
        (drain fixed.role t.env fixed.config t.cur_tsc (sampling fixed t m x.node))))
after_measure card fixed t x (completed out) = completed out
after_measure card fixed t x divides_by_zero = divides_by_zero
after_measure card fixed t x faults = faults

-- The body of `while (1)`.
unfoldable pub turn : Card → Fixed → Turn → NodeCore → Turned Line NodeCore
unfolding measured drain poll handle
turn card fixed t x = after_measure card fixed t x (measured fixed t x)

-- `while (1)`, on the rounds that the core finds.
unfoldable pub np_client_rx_loop : Card → Fixed → List Turn → NodeCore → Turned Line NodeCore
unfolding turn rounds
np_client_rx_loop card fixed ts x = rounds (turn card fixed) ts x
