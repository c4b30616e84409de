-- ===== src/Combined/Tests.antt =====
-- The combined program at concrete rounds.
use net_lock.Common.{
  ℕ, ◌+◌, ◌*◌, ◌≡◌, refl, true, false, List, [], ◌∷◌, ◌++◌, some, map, arith, get_elem?,
}
use net_lock.Wire.{Env, acquire_lock, exclusive_lock}
use net_lock.LockQueue.{Dequeued}
use net_lock.Latency.{LatencyStat}
use net_lock.Transmit.{Card}
use net_lock.Meter.{Plan, Meter, Reading, no_count}
use net_lock.Polling.{turned}
use net_lock.Polling.Simulation.{silent, unread}
use net_lock.Client as Client
use net_lock.Client.Loop as ClientLoop
use net_lock.Server as Server
use net_lock.Server.Loop as ServerLoop
use net_lock.Combined.{Arrival}
use net_lock.Combined.Measure.{Figures, Line, average, median, measure}
use net_lock.Combined.Loop.{Turn, Fixed, NodeCore, np_client_rx_loop}
use net_lock.Combined.Split.{
  server_fixed, server_turn, server_core, client_fixed, client_turn, client_core,
  np_client_rx_loop-server, np_client_rx_loop-client,
}
use net_lock.Combined.Report.{lines_of, shown_total, measure-shown}

abbrev env : Env
env = record { own_ip = 7; default_ip = 9; now = 1000 }

abbrev stale : Dequeued
stale = record { mode = 0; client_id = 0; txn_id = 0; ip_src = 0; timestamp = 0 }

abbrev nothing : LatencyStat
nothing = record { max = 0; num = 0; total = 0; overflow = 0; bin = λ _. 0 }

abbrev plan : Plan
plan = record {
  n_lcores = 2;
  n_rcv_cores = 1;
  average_interval = 10;
  update_tsc = 100;
  average_end_tsc = 2050;
  exit_tsc = 20050;
}

abbrev meter : Meter
meter = record {
  tput_stat_avg = λ _. record { now = no_count; last = no_count };
  tput_stat_total = record { now = no_count; last = no_count };
  latency_stat_avg = λ _. nothing;
  next_update_tsc = 150;
  average_start_tsc = 1050;
  latency_sample_start = false;
  stop_statis = false;
  last_rx = 0;
}

abbrev config : Client.Config
config = record {
  benchmark = 110;
  think_time = 0;
  data_transfer_mode = 97;
  client_num = 2;
  increment_time = 100;
  sample_interval = 1;
  port_probe = 9998;
  ip_src = 11;
  tsc_hz = 1000000;
}

abbrev client : Client.Client
client = record {
  txns = λ _ _. record {
    queue = [];
    txn_s = 0;
    txn_r = 0;
    locks = 0;
    num_retries = 0;
    deadlocked = false;
    finished = false;
    begin_time = 0;
    refresh_time = 0;
    refresh_time_failure = 0;
    finish_time = 0;
  };
  busy = λ _ _. false;
  failure_act = λ _. 2;
  detect_failure = λ _. 0;
  last_failure_status = 0;
  think_queue = [];
  last_drain_tq_tsc = 50;
  latency = nothing;
  samples = [];
  sample_start = false;
  rx = 0;
  rx_read = 0;
  rx_write = 0;
  txn_count = 0;
}

abbrev server : Server.Server
server = record {
  queues = λ _. [];
  num_ex = λ _. 0;
  num_sh = λ _. 0;
  len_in_switch = λ _. 2;
  secondary_locks = [];
  rx = 0;
  rx_read = 0;
  rx_write = 0;
}

-- A packet about lock 5: a request to a server, and to a client the grant that answers one.
abbrev arrival : Arrival
arrival = record {
  env = env;
  has_memory = true;
  stale = stale;
  frame = record {
    dst_port = 8888;
    failure_status = 0;
    mem_role = 1;
    src2 = 10;
    src3 = 1;
    src4 = 0;
    src5 = 1;
    header = record {
      recirc_flag = 0;
      op_type = acquire_lock;
      mode = exclusive_lock;
      client_id = 1;
      txn_id = 0x0100_0000;
      lock_id = 0x0500_0000;
      payload = 77;
    };
  };
}

abbrev rounds : List Turn
rounds =
    record {
      cur_tsc = 60;
      tput_stat = λ _. no_count;
      latency_stat_c = λ _. nothing;
      latency_sample_start = true;
      samples = [];
      env = env;
      bursts = (arrival ∷ []) ∷ [] ∷ [];
    }
    ∷ []

abbrev fixed : (role : ℕ) → Fixed
fixed role = record { role = role; lcore_id = 1; drain_tsc = 10; plan = plan; config = config }

abbrev core : NodeCore
core = record {
  node = record { client = client; server = server };
  tx = record { table = []; tx = 0; dropped = 0; sent = []; freed = [] };
  next_drain_tsc = 50;
  meter = meter;
}

abbrev all_card : Card
all_card [] = 0
all_card (p ∷ ps) = 1 + all_card ps

np_client_rx_loop-server_example :
    silent server_core (np_client_rx_loop all_card (fixed 115) rounds core)
    ≡ unread (
        ServerLoop.np_client_rx_loop all_card
          (server_fixed (fixed 115))
          (map server_turn rounds)
          (server_core core))
np_client_rx_loop-server_example =
    np_client_rx_loop-server all_card (fixed 115) (λ e. omega (arith, e)) (λ e. omega (arith, e))
      rounds core

np_client_rx_loop-client_example :
    silent client_core (np_client_rx_loop all_card (fixed 99) rounds core)
    ≡ unread (
        ClientLoop.np_client_rx_loop all_card
          (client_fixed (fixed 99))
          (map client_turn rounds)
          (client_core core))
np_client_rx_loop-client_example =
    np_client_rx_loop-client all_card (fixed 99) (λ e. omega (arith, e)) refl rounds core

-- Core `i` has counted `(i + 1) * k` of everything at time `t`.
abbrev at_time : (t k : ℕ) → Reading
at_time t k = record {
  cur_tsc = t;
  tput_stat = λ i. record {
    tx = (i + 1) * k;
    rx = (i + 1) * k;
    rx_read = (i + 1) * k;
    rx_write = (i + 1) * k;
    txn = (i + 1) * k;
    dropped = 0;
  };
  latency_stat_c = λ _. nothing;
}

-- Core 0 received 200 packets in the window of ten seconds, and the report shows 20 a second, but
-- 30 reads a second, for the 300 since the start.
measure-shown_example :
    (m1 : Meter) × (out : List Line) × (measure plan (at_time 1100 100) [] meter ≡ turned m1 out)
    × (front : List Line) × (cores : List Figures) × (lines_of
          (measure plan (at_time 2100 300) ((4 ∷ 9 ∷ 2 ∷ []) ∷ []) m1)
        ≡ front
          ++ average cores
              (shown_total plan (at_time 1100 100) (at_time 2100 300))
              (median ((4 ∷ 9 ∷ 2 ∷ []) ∷ []))
            ∷ [])
    × (get_elem? cores 0 ≡ some (record { tx = 20; rx = 20; rx_read = 30 }))
measure-shown_example =
    measure-shown plan (at_time 1100 100) (at_time 2100 300) [] ((4 ∷ 9 ∷ 2 ∷ []) ∷ []) meter
      (omega arith) (omega arith) (omega arith) (omega arith) (omega arith) (omega arith) refl 0
      (omega arith)

median_lem : median ((4 ∷ 9 ∷ 2 ∷ []) ∷ (5 ∷ []) ∷ []) ≡ 5
unfolding median
median_lem = refl
