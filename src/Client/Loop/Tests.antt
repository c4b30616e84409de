-- ===== src/Client/Loop/Tests.antt =====
-- A round of a receiving core with a grant in the think queue and a grant in a burst.
use net_lock.Common.{◌≡◌, refl, true, false, List, [], ◌∷◌, ◌++◌, none, some, arith, length, write}
use net_lock.Wire.{Packet}
use net_lock.Transmit.{Card}
use net_lock.Transmit.Table.{TakesOffered}
use net_lock.Meter.{Print, no_count}
use net_lock.Polling.{turned, handle_all, all_of}
use net_lock.Polling.Laws.{Puts}
use net_lock.Client.{Client}
use net_lock.Client.Receive.{drain_round, receive}
use net_lock.Client.Receive.Drains.{released}
use net_lock.Client.Tests.{env, config, core, new_txn, kept, reply, nothing}
use net_lock.Client.Loop.{Turn, Fixed, ClientCore, sampling, measured, handle, turn}
use net_lock.Client.Loop.Rounds.{meter_after, turn-drain_round}

abbrev fixed : Fixed
fixed = record {
  lcore_id = 1;
  drain_tsc = 10;
  plan = record {
    n_lcores = 4;
    n_rcv_cores = 2;
    average_interval = 10;
    update_tsc = 1000000;
    average_end_tsc = 20000050;
    exit_tsc = 200000050;
  };
  config = config 110 20;
}

abbrev round : Turn
round = record {
  cur_tsc = 200;
  tput_stat = λ _. no_count;
  latency_stat_c = λ _. nothing;
  latency_sample_start = false;
  env = env;
  bursts = (record { env = env; has_memory = true; frame = reply } ∷ []) ∷ [] ∷ [];
}

abbrev idle : ClientCore
idle = record {
  client = core (new_txn 2 [] 0);
  tx = record { table = []; tx = 0; dropped = 0; sent = []; freed = [] };
  next_drain_tsc = 150;
  meter = record {
    tput_stat_avg = λ _. record { now = no_count; last = no_count };
    tput_stat_total = record { now = no_count; last = no_count };
    latency_stat_avg = λ _. nothing;
    next_update_tsc = 1000050;
    average_start_tsc = 10000050;
    latency_sample_start = false;
    stop_statis = false;
    last_rx = 0;
  };
}

abbrev all_card : Card
all_card ps = length ps

takes : TakesOffered all_card
takes ps = omega arith

-- The client after the drain, and after the grant, which waits in the think queue.
drained : Client
drained = record (sampling fixed round idle.meter idle.client) {
  think_queue = [];
  last_drain_tq_tsc = 200;
  busy = write (λ _ _. false) 1 (write (λ _. false) 5 false);
}

left : Client
unfolding handle receive
left =
    elim (handle (config 110 20) 200 (record { env = env; has_memory = true; frame = reply })
      drained) [ none ↦ drained | some r ↦ r.0 ]

drains :
    drain_round env
      (config 110 20)
      200
      (sampling fixed round (meter_after (measured fixed round idle) idle.meter) idle.client)
    ≡ some (drained, released env (config 110 20) kept ∷ [])
unfolding measured drain_round drained write released
drains = refl

handled : handle_all (handle (config 110 20) 200) (all_of round.bursts) drained ≡ some (left, [])
unfolding handle_all handle all_of receive drained left write
handled = refl

turn-drain_round_example :
    (x' : ClientCore) × (lines : List Print) × (turn all_card fixed round idle ≡ turned x' lines)
    × (x'.client ≡ left)
    × Puts idle.tx (released env (config 110 20) kept ∷ []) x'.tx
    × (earlier : List Packet) × ([] ≡ earlier ++ x'.tx.table)
turn-drain_round_example =
    turn-drain_round all_card fixed round idle drained left (released env (config 110 20) kept ∷ [])
      [] takes (omega arith) (omega arith) (record { fit = omega arith; before_exit = omega arith })
      drains handled (omega arith)
