-- ===== src/Server/Loop/Tests.antt =====
-- Two rounds of core 0 of the lock server, with three packets in the bursts of two receive queues.
use net_lock.Common.{ℕ, ◌≡◌, refl, false, List, [], ◌∷◌, none, some, arith, length, write}
use net_lock.Wire.{Packet, release_lock, exclusive_lock}
use net_lock.Latency.{LatencyStat}
use net_lock.Transmit.{Card}
use net_lock.Transmit.Table.{TakesOffered}
use net_lock.Meter.{Print, no_count, plan_of}
use net_lock.Polling.{turned, drain_tsc_of, handle_all, all_of}
use net_lock.Polling.Laws.{Puts}
use net_lock.Server.{
  Server, Frame, primary_backup, request_of, grant, acquire_primary, release_primary,
}
use net_lock.Server.Process.{process}
use net_lock.Server.Tests.{env, round, idle, asks, packet}
use net_lock.Server.Loop.{Arrival, Turn, Fixed, ServerCore, fixed_of, handle, np_client_rx_loop}
use net_lock.Server.Loop.Rounds.{arrivals, np_client_rx_loop-Puts}

abbrev arrives : Frame → Arrival
arrives f = record { env = env; round = round; frame = f }

-- Client 1 asks for lock 5, client 2 asks for it, and client 1 releases it.
abbrev first : Arrival
first = arrives (asks exclusive_lock 1)

abbrev second : Arrival
second = arrives (asks exclusive_lock 2)

abbrev third : Arrival
third = arrives (packet primary_backup release_lock exclusive_lock 1)

abbrev no_latency : ℕ → LatencyStat
no_latency i = record { max = 0; num = 0; total = 0; overflow = 0; bin = λ _. 0 }

abbrev at_time : ℕ → List (List Arrival) → Turn
at_time t bursts = record {
  cur_tsc = t;
  tput_stat = λ _. no_count;
  latency_stat_c = no_latency;
  bursts = bursts;
}

abbrev rounds : List Turn
rounds = at_time 60 ((first ∷ second ∷ []) ∷ [] ∷ []) ∷ at_time 70 ([] ∷ (third ∷ []) ∷ []) ∷ []

abbrev fixed : Fixed
fixed = record {
  lcore_id = 0;
  drain_tsc = 10;
  plan = record {
    n_lcores = 2;
    n_rcv_cores = 1;
    average_interval = 10;
    update_tsc = 1000000;
    average_end_tsc = 20000050;
    exit_tsc = 200000050;
  };
}

fixed_of-fixed : fixed_of 0 2 1 10 1000000 50 ≡ fixed
unfolding fixed_of plan_of drain_tsc_of
fixed_of-fixed = refl

abbrev core : ServerCore
core = record {
  server = idle;
  tx = record { table = []; tx = 0; dropped = 0; sent = []; freed = [] };
  next_drain_tsc = 60;
  meter = record {
    tput_stat_avg = λ _. record { now = no_count; last = no_count };
    tput_stat_total = record { now = no_count; last = no_count };
    latency_stat_avg = no_latency;
    next_update_tsc = 1000050;
    average_start_tsc = 10000050;
    latency_sample_start = false;
    stop_statis = false;
    last_rx = 0;
  };
}

abbrev pub all_card : Card
all_card ps = length ps

pub takes : TakesOffered all_card
takes ps = omega arith

-- The answers: the grants to clients 1 and 2.
abbrev answers : List Packet
answers = grant env 5 (request_of first.frame) ∷ grant env 5 (request_of second.frame) ∷ []

-- The server that they leave.
left : Server
unfolding handle_all handle process acquire_primary release_primary request_of write
left = elim (handle_all handle (first ∷ second ∷ third ∷ []) idle) [ none ↦ idle | some r ↦ r.0 ]

handled : handle_all handle (first ∷ second ∷ third ∷ []) idle ≡ some (left, answers)
unfolding left handle_all handle process acquire_primary release_primary request_of grant write
handled = refl

left_lem : (left.rx ≡ 3) × (left.rx_read ≡ 2) × (length (left.queues 5) ≡ 1)
unfolding left write
left_lem = (refl, refl, refl)

np_client_rx_loop-Puts_example :
    (x' : ServerCore) × (lines : List Print) × (np_client_rx_loop all_card fixed rounds core
      ≡ turned x' lines)
    × (x'.server ≡ left)
    × Puts core.tx answers x'.tx
unfolding all_of arrivals
np_client_rx_loop-Puts_example =
    np_client_rx_loop-Puts all_card fixed rounds core left answers takes (omega arith) (omega arith)
      (
        record { fit = omega arith; before_exit = omega arith },
        (record { fit = omega arith; before_exit = omega arith }, tt),
      )
      handled

abbrev pub requests : List Turn
requests = at_time 60 ((first ∷ []) ∷ [] ∷ []) ∷ at_time 70 ((second ∷ []) ∷ []) ∷ []
