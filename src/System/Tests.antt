-- ===== src/System/Tests.antt =====
-- A lock server and one client: the client asks for lock 6, and the server grants it.
use net_lock.Common.{◌+◌, ◌<◌, ◌≡◌, ◌≢◌, ◌⊎◌, refl, List, [], ◌∷◌, some, true, false, arith, write}
use net_lock.Wire.{
  Env, Packet, htonl, ntohl, acquire_lock, release_lock, generate_write_request_pkt,
}
use net_lock.Server as Server
use net_lock.Server.{
  Server, primary_backup, request_of, acquire_primary, enqueue_request, grant_all, grant,
  count_exclusive, count_shared, add64,
}
use net_lock.Server.Process.{process}
use net_lock.Client.{Txn, Config, Client, failure_normal}
use net_lock.Client.Transaction.{Clock}
use net_lock.Client.Visit.{
  Trace, Sender, Visited, visit, request, send_request, wrapped, advance, lock_id_of,
}
use net_lock.System.{System, sends, serves, IsInitial, IsPlain, Reach, start, next}
use net_lock.System.Tally.{holds}
use net_lock.Server.Dispatch.{lock_of}
use net_lock.Client.Receive.Answers.{grant_of}
use net_lock.Client.Receive.Drains.{released}
use net_lock.System.RoundTrip.{answered, kept, request-grant-release}
use net_lock.System.Tags.{tag}
use net_lock.System.Exclusion.{holds_exclude, held_if_queued}

abbrev env : Env
env = record { own_ip = 7; default_ip = 9; now = 5000 }

abbrev config : Config
config = record {
  benchmark = 110;
  think_time = 20;
  data_transfer_mode = 115;
  client_num = 2;
  increment_time = 100;
  sample_interval = 1;
  port_probe = 9998;
  ip_src = 11;
  tsc_hz = 1000000;
}

abbrev idle_txn : Txn
idle_txn = record {
  queue = [];
  txn_s = 0;
  txn_r = 0;
  locks = 1;
  num_retries = 0;
  deadlocked = false;
  finished = false;
  begin_time = 10;
  refresh_time = 10;
  refresh_time_failure = 10;
  finish_time = 0;
}

abbrev client : Client
client = record {
  txns = λ _ _. idle_txn;
  busy = λ _ _. false;
  failure_act = λ _. failure_normal;
  detect_failure = λ _. 0;
  last_failure_status = 0;
  think_queue = [];
  last_drain_tq_tsc = 50;
  latency = record { max = 0; num = 0; total = 0; overflow = 0; bin = λ _. 0 };
  samples = [];
  sample_start = true;
  rx = 0;
  rx_read = 0;
  rx_write = 0;
  txn_count = 0;
}

-- Every request is for lock 6, exclusively.
abbrev trace : Trace
trace = record {
  len = λ _. 3;
  txn_id = λ _ _. 3;
  action_type = λ _ _. acquire_lock;
  target_obj_idx = λ _ _. 6;
  lock_type = λ _ _. 1;
  extensive_locks = 7000000;
  obj_per_lock = 1;
}

trace-IsPlain : IsPlain trace
unfolding lock_id_of
trace-IsPlain = record { mode = λ cid i. omega arith; lock = λ cid i. omega arith }

abbrev sender : Sender
sender = record {
  idx = λ _. 0;
  last_txn_idx = λ _. 0;
  last_txn = 3;
  expire_idx = 0;
  pkts_send_ms = 2;
}

abbrev clock : Clock
clock = record { cur_tsc = 9000; expire_time = λ _. 400; begin_now = 9001; finish_now = 9002 }

abbrev round : Server.Round
round = record {
  has_memory = true;
  stale = record { mode = 0; client_id = 0; txn_id = 0; ip_src = 0; timestamp = 0 };
}

abbrev server : Server
server = record {
  queues = λ _. [];
  num_ex = λ _. 0;
  num_sh = λ _. 0;
  len_in_switch = λ _. 0;
  secondary_locks = [];
  rx = 0;
  rx_read = 0;
  rx_write = 0;
}

abbrev before : System
before = record {
  server = server;
  machines = record { sender = sender; client = client } ∷ [];
  to_server = [];
  to_client = [];
}

before-IsInitial : IsInitial before
before-IsInitial = record {
  queue = λ l. refl;
  num_ex = λ l. refl;
  num_sh = λ l. refl;
  idle = (refl, tt);
  to_server = refl;
  to_client = refl;
}

abbrev request_6 : Packet
request_6 = generate_write_request_pkt env acquire_lock 1 6 3 0 0 0 1

abbrev sent : Visited
sent = (
  record (advance 1 (wrapped trace 1 sender)) { pkts_send_ms = 3 },
  record client { busy = write client.busy 1 (write (client.busy 1) 6 true) },
  request_6 ∷ [],
)

visit-sent : visit env config trace clock 1 sender client ≡ some sent
unfolding visit request lock_id_of send_request generate_write_request_pkt write
visit-sent = refl

abbrev asking : System
asking = record before {
  machines = record { sender = sent.0; client = sent.1 } ∷ [];
  to_server = request_6 ∷ [];
}

asking-Reach : Reach config asking
asking-Reach = next (start before before-IsInitial) (
    sends env trace clock 1 [] [] (record { sender = sender; client = client }) sent trace-IsPlain
      (omega arith) refl visit-sent)

abbrev arrival : Server.Frame
arrival = record {
  mem_role = primary_backup;
  src2 = 10;
  src3 = 1;
  src4 = 0;
  src5 = 1;
  header = request_6.header;
}

-- The client's request is granted at once.
granted :
    (t : Server) × (out : List Packet) × (process env round arrival server ≡ some (t, out))
    × (t.queues 6 ≢ [])
unfolding process acquire_primary enqueue_request grant_all generate_write_request_pkt htonl ntohl
    write request_of
granted = (_, _, refl, λ e. cc)

abbrev granting : System
granting = record asking { server = granted.0; to_server = []; to_client = granted.1 }

granting-Reach : Reach config granting
granting-Reach = next asking-Reach (
    serves env round arrival [] [] request_6 granted.0 granted.1 refl refl refl refl
      (λ l. omega arith) granted.2)

holds_exclude_example :
    (holds 6 1 granting ≡ 0) ⊎ ((holds 6 1 granting ≡ 1) × (holds 6 0 granting ≡ 0))
holds_exclude_example = holds_exclude config refl 6 granting-Reach

held_if_queued_example : 0 < holds 6 0 granting + holds 6 1 granting
held_if_queued_example = held_if_queued config refl 6 granting-Reach granted.3

request-grant-release_example :
    (grant_of env (answered env env config 1 6 3 1 arrival).header ≡ kept env env config 1 6 3 1)
    × ((answered env env config 1 6 3 1 arrival).header.payload ≡ 5000)
    × (lock_of arrival ≡ 6)
    × (tag (released env config (grant_of env (answered env env config 1 6 3 1 arrival).header))
        ≡ record (tag request_6) { op = release_lock })
request-grant-release_example =
    request-grant-release env env config 1 6 3 1 arrival (omega arith) (omega arith) (omega arith)
      (omega arith) (λ e. omega (arith, e)) refl
