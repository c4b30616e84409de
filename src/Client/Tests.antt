-- ===== src/Client/Tests.antt =====
-- A client's core at concrete packets and traces.
use net_lock.Common.{
  ℕ, ◌≡◌, ◌⊎◌, inr, refl, List, [], ◌∷◌, ◌++◌, map, none, some, true, false, arith, All, ◌==◌,
  if◌then◌else◌,
}
use net_lock.Wire.{Env, Packet, htonl, ntohl, acquire_lock}
use net_lock.ThinkQueue.{ThinkQueueNode}
use net_lock.TxnQueue.{TxnQueueNode}
use net_lock.Latency.{LatencyStat}
use net_lock.Client.{Txn, Config, Client, failure_normal}
use net_lock.Client.Receive.{Frame, Round, receive, receive_probe}
use net_lock.Client.Receive.Drains.{IsIndexed, released}
use net_lock.Client.Receive.Answers.{grant_of, KeepsOrder, receive-released}
use net_lock.Client.Transaction.{Clock, release_of}
use net_lock.Client.Transaction.Ledger.{
  IsSound, owed, grant, look, run, run-owed, run_out_of_memory, node_of,
}
use net_lock.Client.Visit.{Trace, Sender, Visited, visit, request}
use net_lock.Client.Visit.Sound.{EndsSound, visit-AllSound}
use net_lock.Client.Visit.Phases.{Skips, Waits, Retries, Proceeds, request-next}
use net_lock.Client.Failure.{receive_probe-visit}

abbrev pub env : Env
env = record { own_ip = 7; default_ip = 9; now = 5000 }

-- A benchmark with a think time, and TPC-C.
abbrev pub config : (benchmark think_time : ℕ) → Config
config benchmark think_time = record {
  benchmark = benchmark;
  think_time = think_time;
  data_transfer_mode = 115;
  client_num = 2;
  increment_time = 100;
  sample_interval = 1;
  port_probe = 9998;
  ip_src = 11;
  tsc_hz = 1000000;
}

abbrev pub new_txn : (locks : ℕ) (queue : List TxnQueueNode) (txn_r : ℕ) → Txn
new_txn locks queue txn_r = record {
  queue = queue;
  txn_s = 0;
  txn_r = txn_r;
  locks = locks;
  num_retries = 0;
  deadlocked = false;
  finished = false;
  begin_time = 10;
  refresh_time = 10;
  refresh_time_failure = 10;
  finish_time = 0;
}

abbrev pub kept : ThinkQueueNode
kept = record { mode = 1; client_id = 1; lock_id = 5; txn_id = 3; grant_time = 40 }

abbrev pub nothing : LatencyStat
nothing = record { max = 0; num = 0; total = 0; overflow = 0; bin = λ _. 0 }

-- Every transaction of two locks holds lock 6.
abbrev pub core : Txn → Client
core t = record {
  txns = λ _ _. t;
  busy = λ _ _. false;
  failure_act = λ _. failure_normal;
  detect_failure = λ _. 0;
  last_failure_status = 0;
  think_queue = kept ∷ [];
  last_drain_tq_tsc = 50;
  latency = nothing;
  samples = [];
  sample_start = true;
  rx = 0;
  rx_read = 0;
  rx_write = 0;
  txn_count = 0;
}

abbrev pub round : Round
round = record { cur_tsc = 200; has_memory = true }

-- A grant of lock 6 to client 1.
abbrev pub reply : Frame
reply = record {
  dst_port = 8888;
  failure_status = 0;
  header = record {
    recirc_flag = 0;
    op_type = 3;
    mode = 0;
    client_id = 1;
    txn_id = 67108864;
    lock_id = 100663296;
    payload = 4000;
  };
}

receive-released_example :
    (c' : Client) × (out : List Packet) × ((receive env
          (config 110 20)
          round
          reply
          (core (new_txn 2 [] 0))
        ≡ some (c', out))
      × ((out ++ map (released env (config 110 20)) c'.think_queue
            ≡ released env (config 110 20) kept
              ∷ released env (config 110 20) (grant_of env reply.header)
              ∷ [])
          × (All IsIndexed c'.think_queue × KeepsOrder (config 110 20) c')))
unfolding htonl ntohl
receive-released_example =
    receive-released env (config 110 20) round reply (core (new_txn 2 [] 0)) (λ e. omega arith) refl
      (λ e. omega arith) refl refl (record { interval = omega arith; room = omega arith })
      (λ e. ground arith) ((omega arith, omega arith), tt) (omega arith) (omega arith)

-- `cur_tsc` is far behind the time-out.
abbrev pub late : Clock
late = record { cur_tsc = 9000; expire_time = λ _. 400; begin_now = 9001; finish_now = 9002 }

run-owed_example :
    (t' : Txn) × (out : List Packet) × ((run env
          (config 116 20)
          3
          1
          (grant true 0 3 6 ∷ look late 0 ∷ grant true 1 0 7 ∷ look late 1 ∷ [])
          (new_txn 2 [] 0)
        ≡ some (t', out))
      × (IsSound t'
          × (out ++ map (release_of env (config 116 20) 3 1) (owed t')
              ≡ map (release_of env (config 116 20) 3 1) (node_of 0 3 6 ∷ node_of 1 0 7 ∷ []))))
run-owed_example =
    run-owed env (config 116 20) 3 1
      (grant true 0 3 6 ∷ look late 0 ∷ grant true 1 0 7 ∷ look late 1 ∷ []) (new_txn 2 [] 0)
      (record { counted = refl; below = omega arith }) (refl, (refl, tt))

run_out_of_memory_example :
    run env (config 116 20) 3 1 (grant false 0 3 6 ∷ look late 0 ∷ []) (new_txn 2 [] 0) ≡ none
run_out_of_memory_example =
    run_out_of_memory env (config 116 20) 3 1 0 3 6 late 0 [] (new_txn 2 [] 0)
      (record { counted = refl; below = omega arith }) (inr (omega arith, omega arith))

-- Transaction 3 asks for locks 6 and 7, and transaction 4 for lock 6.
abbrev pub trace : Trace
trace = record {
  len = λ _. 3;
  txn_id = λ _ i. if i == 2 then 4 else 3;
  action_type = λ _ _. acquire_lock;
  target_obj_idx = λ _ i. if i == 1 then 7 else 6;
  lock_type = λ _ _. 1;
  extensive_locks = 7000000;
  obj_per_lock = 1;
}

-- Client 1 has asked for the locks of transaction 3.
abbrev pub sender : Sender
sender = record {
  idx = λ _. 2;
  last_txn_idx = λ _. 0;
  last_txn = 3;
  expire_idx = 0;
  pkts_send_ms = 2;
}

abbrev pub held : Txn
held = new_txn 2 (node_of 0 3 6 ∷ node_of 1 0 7 ∷ []) 2

held-IsSound : IsSound held
held-IsSound = record { counted = refl; below = omega arith }

visit-AllSound_example : EndsSound (visit env (config 116 20) trace late 1 sender (core held))
visit-AllSound_example =
    visit-AllSound env (config 116 20) trace late 1 sender (core held) (λ i j. held-IsSound)

request-next_example :
    (v : Visited) × (request env (config 116 20) trace late 1 6 4 sender (core held) ≡ some v)
    × (Skips (config 116 20) 1 6 sender (core held) v
        ⊎ (Waits env (config 116 20) late 1 sender held v
            ⊎ (Retries env (config 116 20) 1 sender held v
                ⊎ Proceeds env (config 116 20) trace 1 6 sender (core held) held v)))
request-next_example =
    request-next env (config 116 20) trace late 1 6 sender (core held) refl (λ e. omega arith)
      held-IsSound (omega arith)

receive_probe-visit_example :
    (c1 : Client) × (v : Visited) × (c2 : Client) × (receive_probe (config 116 20) 1 (core held)
      ≡ some c1)
    × (visit env (config 116 20) trace late 1 sender c1 ≡ some v)
    × (v.2 ≡ [])
    × (v.0.idx 1 ≡ 0)
    × ((v.1.txns 1 3).queue ≡ [])
    × (receive env (config 116 20) round reply v.1 ≡ some (v.1, []))
    × (receive_probe (config 116 20) 0 v.1 ≡ some c2)
    × (c2.failure_act 1 ≡ failure_normal)
receive_probe-visit_example =
    receive_probe-visit env (config 116 20) trace late round reply sender (core held) 1
      (omega arith) (omega arith) refl (λ e. omega arith)
