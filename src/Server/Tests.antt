-- ===== src/Server/Tests.antt =====
-- The lock server at concrete packets.
use net_lock.Common.{
  ℕ, ◌+◌, ◌-◌, ◌^◌, ◌<◌, ◌≤◌, ◌≡◌, ◌⊎◌, inl, refl, List, [], ◌∷◌, ◌++◌, map, some, true, false,
  arith, length, All, write,
}
use net_lock.Wire.{
  Env, generate_write_request_pkt, htonl, ntohl, acquire_lock, release_lock, shared_lock,
  exclusive_lock,
}
use net_lock.LockQueue.{QueueNode, Dequeued}
use net_lock.Server.{
  Frame, Round, Server, primary_backup, failure_notification, request_of, acquire_primary,
  release_primary, release_secondary, grant, enqueue_request, grant_all,
}
use net_lock.Server.Process.{process, finish}
use net_lock.Server.Holders.{holders}
use net_lock.Server.Wire.{Who, requester, addressee}
use net_lock.Server.Counters.{Counted}
use net_lock.Server.Grants.{acquire_primary-holders, release_primary-holders}
use net_lock.Server.Dispatch.{process-acquire, process-Same, Same, lock_of}
use net_lock.Server.History.{History, Addressed, Step, Reach, acquires, start, next}
use net_lock.Server.Exclusion.{held_compatible, served_in_order}
use net_lock.Server.Buffer.{release_secondary-take}
use net_lock.Server.Faults.{
  IsFree, release_primary-IsFree, acquire_primary_out_of_memory, process-failure,
}

abbrev pub env : Env
env = record { own_ip = 7; default_ip = 9; now = 1000 }

abbrev pub stale : Dequeued
stale = record { mode = 0; client_id = 0; txn_id = 0; ip_src = 0; timestamp = 0 }

abbrev pub round : Round
round = record { has_memory = true; stale = stale }

abbrev pub idle : Server
idle = record {
  queues = λ _. [];
  num_ex = λ _. 0;
  num_sh = λ _. 0;
  len_in_switch = λ _. 2;
  secondary_locks = 5 ∷ [];
  rx = 0;
  rx_read = 0;
  rx_write = 0;
}

-- A packet for lock 5, whose number is 0x05000000 on the wire.
abbrev pub packet : (role op mode client : ℕ) → Frame
packet role op mode client = record {
  mem_role = role;
  src2 = 10;
  src3 = 1;
  src4 = 0;
  src5 = client;
  header = record {
    recirc_flag = 0;
    op_type = op;
    mode = mode;
    client_id = client;
    txn_id = 0x0100_0000;
    lock_id = 0x0500_0000;
    payload = 77;
  };
}

abbrev pub asks : ℕ → ℕ → Frame
asks mode client = packet primary_backup acquire_lock mode client

pub addressed : (mode client : ℕ) → mode ≤ 1 → client < 256 → Addressed 5 (asks mode client)
unfolding request_of ntohl htonl
addressed mode client h k = record {
  ours = refl;
  lock = refl;
  fits = omega arith;
  mode = h;
  ranged = record { mode = omega arith; client = k; txn = omega arith };
}

-- Client 1 asks for lock 5 shared, then client 2 asks for it exclusively.
abbrev pub before : History
before = record { server = idle; held = []; served = []; asked = [] }

unfoldable pub asked_by : (mode client : ℕ) → History → History
asked_by mode client h =
    let r = finish (acquire_primary env true 5 (request_of (asks mode client)) h.server) in
    record {
      server = r.0;
      held = h.held ++ map addressee r.1;
      served = h.served ++ map addressee r.1;
      asked = h.asked ++ requester (request_of (asks mode client)) ∷ [];
    }

-- A request that finds memory, as a step.
unfoldable pub asking :
    (mode client : ℕ) (h : History)
    → mode ≤ 1
    → client < 256
    → length (h.server.queues 5) + 1 < 2 ^ 32
    → Step 5 h (asked_by mode client h)
unfolding asked_by
asking mode client h m c room =
    let f = asks mode client in
    let a = addressed mode client m c in
    acquires env round f _ _ a refl refl room
      (process-acquire env round f h.server 5 refl a.lock a.fits refl refl)

both : History
unfolding asked_by acquire_primary enqueue_request grant_all write request_of
both = asked_by exclusive_lock 2 (asked_by shared_lock 1 before)

pub Reach-before : Reach 5 before
Reach-before = start before (record {
  queue = refl;
  num_ex = refl;
  num_sh = refl;
  held = refl;
  served = refl;
  asked = refl;
})

Reach-both : Reach 5 both
unfolding both
Reach-both =
    next (next Reach-before (asking shared_lock 1 before (omega arith) (omega arith) (omega arith)))
      (asking exclusive_lock 2 _ (omega arith) (omega arith) (omega arith))

abbrev first_client : Who
first_client = record { mode = shared_lock; client_id = 1; txn_id = 0x0100_0000 }

-- Only the first of the two has been told.
both_held : both.held ≡ first_client ∷ []
unfolding both grant generate_write_request_pkt ntohl htonl
both_held = refl

held_compatible_example : All (λ (w : Who). w.mode ≡ shared_lock) both.held ⊎ (length both.held ≡ 1)
held_compatible_example = held_compatible 5 Reach-both

served_in_order_example : (later : List Who) × (both.asked ≡ both.served ++ later)
served_in_order_example = served_in_order 5 Reach-both

-- A server that holds one shared request for lock 5 counts it.
abbrev one_request : QueueNode
one_request = record { mode = 0; client_id = 1; txn_id = 0x0100_0000; ip_src = 10; timestamp = 77 }

abbrev another : QueueNode
another = record { mode = 1; client_id = 2; txn_id = 0x0200_0000; ip_src = 11; timestamp = 78 }

abbrev busy : Server
busy = record idle { queues = λ _. one_request ∷ another ∷ []; num_sh = λ _. 1; num_ex = λ _. 1 }

busy-Counted : Counted busy 5
busy-Counted = record {
  modes = omega arith;
  shared = refl;
  exclusive = refl;
  bounded = omega arith;
}

acquire_primary-holders_example :
    (fresh : List QueueNode) × ((acquire_primary env true 5 another busy).0.queues 5
      ≡ one_request ∷ another ∷ another ∷ [])
    × (holders ((acquire_primary env true 5 another busy).0.queues 5) ≡ one_request ∷ fresh)
    × ((acquire_primary env true 5 another busy).1 ≡ map (grant env 5) fresh)
acquire_primary-holders_example =
    acquire_primary-holders env 5 another busy busy-Counted (omega arith)

release_primary-holders_example :
    (rest fresh : List QueueNode) × ((release_primary env stale 5 busy).0.queues 5 ≡ another ∷ [])
    × (one_request ∷ [] ≡ one_request ∷ rest)
    × (holders ((release_primary env stale 5 busy).0.queues 5) ≡ rest ++ fresh)
    × ((release_primary env stale 5 busy).1 ≡ map (grant env 5) fresh)
release_primary-holders_example =
    release_primary-holders env 5 stale one_request (another ∷ []) busy refl (omega arith)

-- The switch has room for two requests: both go back.
release_secondary-take_example :
    (map addressee (release_secondary env stale 5 busy).1
      ≡ requester one_request ∷ requester another ∷ [])
    × ((release_secondary env stale 5 busy).0.queues 5 ≡ [])
release_secondary-take_example = release_secondary-take env 5 stale busy (
  record { mode = omega arith; client = omega arith; txn = omega arith },
  (record { mode = omega arith; client = omega arith; txn = omega arith }, tt),
)

idle-IsFree : IsFree 5 idle
idle-IsFree = record { queue = refl; num_ex = refl; num_sh = refl }

release_primary-IsFree_example :
    ((release_primary env stale 5 idle).0.queues 5 ≡ [])
    × (((release_primary env stale 5 idle).0.num_sh 5 ≡ 2 ^ 32 - 1)
        ⊎ ((release_primary env stale 5 idle).0.num_ex 5 ≡ 2 ^ 32 - 1))
    × ((acquire_primary env true 5 another (release_primary env stale 5 idle).0).1 ≡ [])
release_primary-IsFree_example =
    release_primary-IsFree env stale 5 another idle idle-IsFree (inl refl) refl

acquire_primary_out_of_memory_example :
    ((acquire_primary env false 5 another idle).1 ≡ grant env 5 another ∷ [])
    × ((acquire_primary env false 5 another idle).0.queues 5 ≡ [])
    × ¬ Counted (acquire_primary env false 5 another idle).0 5
acquire_primary_out_of_memory_example =
    acquire_primary_out_of_memory env 5 another idle idle-IsFree (omega arith)

process-failure_example :
    (t : Server) × (process env round (packet failure_notification release_lock 0 1) busy
      ≡ some (t, []))
    × (t.queues 5 ≡ [])
    × (t.num_sh 5 ≡ 1)
    × (t.num_ex 5 ≡ 1)
process-failure_example =
    process-failure env round (packet failure_notification release_lock 0 1) 5 busy refl

other_lock : ¬ (◌≡◌ {A = ℕ} 6 (lock_of (asks 0 1)))
unfolding ntohl
other_lock e = omega arith

process-Same_example :
    Same 6 idle (finish (acquire_primary env true 5 (request_of (asks 0 1)) idle)).0
unfolding ntohl request_of
process-Same_example =
    process-Same env round (asks 0 1) 6 idle (λ e. omega arith) other_lock
      (process-acquire env round (asks 0 1) idle 5 refl refl (omega arith) refl refl)
