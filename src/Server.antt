-- ===== src/Server.antt =====
-- dpdk_code/lock_server_code/server.c: what `np_client_rx_loop` does with one packet. The queue
-- of each lock is the list of requests that LockQueue.Fifo shows the linked list to stand for.
pub mod Process
pub mod Holders
pub mod Counters
pub mod Grants
pub mod Dispatch
pub mod Wire
pub mod History
pub mod Invariant
pub mod Exclusion
pub mod Loop
pub mod Buffer
pub mod Faults
pub mod Tests
use net_lock.Common.{
  ℕ, zero, suc, ◌+◌, ◌-◌, ◌*◌, ◌%◌, ◌^◌, List, [], ◌∷◌, ◌++◌, map, Bool, ◌==◌, ltb, if◌then◌else◌,
  length, write,
}
use net_lock.Wire.{
  Env, Packet, MessageHeader, ntohl, generate_write_request_pkt, push_back_lock,
  grant_lock_from_server, shared_lock, exclusive_lock,
}
use net_lock.LockQueue.{QueueNode, Dequeued, dequeued_of}

abbrev pub primary_backup : ℕ
primary_backup = 1

abbrev pub secondary_backup : ℕ
secondary_backup = 2

abbrev pub failure_notification : ℕ
failure_notification = 3

abbrev pub max_lock_num : ℕ
max_lock_num = 7010000

-- A packet as it arrives: byte 5 of the destination address and bytes 2 to 5 of the source
-- address of the Ethernet header, and the NetLock header.
pub record Frame : Type 0 where
  pub mem_role : ℕ
  pub src2 : ℕ
  pub src3 : ℕ
  pub src4 : ℕ
  pub src5 : ℕ
  pub header : MessageHeader

-- What else decides a round: whether `malloc` finds memory, and what the locals that `dequeue`
-- should set hold before it.
pub record Round : Type 0 where
  pub has_memory : Bool
  pub stale : Dequeued

-- `lockqueues`, `num_ex`, `num_sh`, `len_in_switch`, the first `count_secondary` entries of
-- `secondary_locks`, and the counters of `tput_stat`.
pub record Server : Type 0 where
  pub queues : ℕ → List QueueNode
  pub num_ex : ℕ → ℕ
  pub num_sh : ℕ → ℕ
  pub len_in_switch : ℕ → ℕ
  pub secondary_locks : List ℕ
  pub rx : ℕ
  pub rx_read : ℕ
  pub rx_write : ℕ

abbrev pub inc32 : ℕ → ℕ
inc32 n = (n + 1) % 2 ^ 32

abbrev pub dec32 : ℕ → ℕ
dec32 n = (n + 2 ^ 32 - 1) % 2 ^ 32

abbrev pub add64 : ℕ → ℕ → ℕ
add64 n k = (n + k) % 2 ^ 64

unfoldable pub ip_from_eth : Frame → ℕ
ip_from_eth f = f.src2 + f.src3 * 2 ^ 8 + f.src4 * 2 ^ 16 + f.src5 * 2 ^ 24

-- The request that a packet asks to queue.
unfoldable pub request_of : Frame → QueueNode
unfolding ip_from_eth
request_of f = record {
  mode = f.header.mode;
  client_id = f.header.client_id;
  txn_id = f.header.txn_id;
  ip_src = ip_from_eth f;
  timestamp = f.header.payload;
}

unfoldable pub grant : Env → ℕ → QueueNode → Packet
unfolding generate_write_request_pkt ntohl
grant env lock n =
    generate_write_request_pkt env grant_lock_from_server n.mode lock (ntohl n.txn_id) n.ip_src
      n.ip_src n.timestamp n.client_id

unfoldable pub push_back : Env → ℕ → Dequeued → Packet
unfolding generate_write_request_pkt
push_back env lock d =
    generate_write_request_pkt env push_back_lock d.mode lock d.txn_id d.ip_src 0 d.timestamp
      d.client_id

-- Without memory the error is printed and the round goes on.
unfoldable pub enqueue_request : Bool → ℕ → QueueNode → Server → Server
enqueue_request has_memory lock n s =
    if has_memory then record s { queues = write s.queues lock (s.queues lock ++ n ∷ []) } else s

-- `dequeue` on the list: the locals keep their old values if it is empty.
unfoldable pub pop : Dequeued → List QueueNode → Dequeued × List QueueNode
unfolding dequeued_of
pop stale [] = (stale, [])
pop stale (n ∷ q) = (dequeued_of n, q)

unfoldable pub grant_all : Env → ℕ → List QueueNode → Server → Server × List Packet
unfolding grant
grant_all env lock ns s =
    (record s { rx_read = add64 s.rx_read (length ns) }, map (grant env lock) ns)

abbrev pub count_shared : ℕ → Server → Server
count_shared lock s = record s { num_sh = write s.num_sh lock (inc32 (s.num_sh lock)) }

abbrev pub count_exclusive : ℕ → Server → Server
count_exclusive lock s = record s { num_ex = write s.num_ex lock (inc32 (s.num_ex lock)) }

-- ACQUIRE_LOCK at the server that owns the lock.
unfoldable pub acquire_primary : Env → Bool → ℕ → QueueNode → Server → Server × List Packet
unfolding enqueue_request grant_all
acquire_primary env has_memory lock n s0 =
    let s = enqueue_request has_memory lock n s0 in
    if n.mode == shared_lock
    then grant_all env lock (if s.num_ex lock == 0 then n ∷ [] else []) (count_shared lock s)
    else if n.mode == exclusive_lock
    then grant_all env lock
        (if s.num_ex lock == 0 then (if s.num_sh lock == 0 then n ∷ [] else []) else [])
        (count_exclusive lock s)
    else (s, [])

-- The `while` loop over the shared requests from `ptr` on.
unfoldable pub shared_run : List QueueNode → List QueueNode
shared_run [] = []
shared_run (n ∷ q) = if n.mode == shared_lock then n ∷ shared_run q else []

-- Whom a release wakes, by the mode of the request that it takes from the queue.
unfoldable pub wake_after_shared : List QueueNode → List QueueNode
wake_after_shared [] = []
wake_after_shared (n ∷ q) = if n.mode == exclusive_lock then n ∷ [] else []

unfoldable pub wake_after_exclusive : List QueueNode → List QueueNode
unfolding shared_run
wake_after_exclusive [] = []
wake_after_exclusive (n ∷ q) = if n.mode == exclusive_lock then n ∷ [] else shared_run (n ∷ q)

-- RELEASE_LOCK at the server that owns the lock.
unfoldable pub release_primary : Env → Dequeued → ℕ → Server → Server × List Packet
unfolding pop grant_all wake_after_shared wake_after_exclusive
release_primary env stale lock s0 =
    let (d, rest) = pop stale (s0.queues lock) in
    let s = record s0 { queues = write s0.queues lock rest } in
    if d.mode == shared_lock
    then grant_all env lock (wake_after_shared rest)
        (record s { num_sh = write s.num_sh lock (dec32 (s.num_sh lock)) })
    else if d.mode == exclusive_lock
    then grant_all env lock (wake_after_exclusive rest)
        (record s { num_ex = write s.num_ex lock (dec32 (s.num_ex lock)) })
    else (s, [])

-- The loop that pushes buffered requests back to the switch, with its rounds left.
unfoldable pub push_back_loop : Env → ℕ → ℕ → Dequeued → Server → Server × List Packet
unfolding pop push_back
push_back_loop env lock zero stale s = (s, [])
push_back_loop env lock (suc k) stale s =
    let (d, rest) = pop stale (s.queues lock) in
    let (s', out) =
      push_back_loop env lock k d
        (record s { queues = write s.queues lock rest; rx_write = add64 s.rx_write 1 }) in
    (s', push_back env lock d ∷ out)

-- RELEASE_LOCK at the server that only buffers: as many requests as the switch has room for.
unfoldable pub release_secondary : Env → Dequeued → ℕ → Server → Server × List Packet
unfolding push_back_loop
release_secondary env stale lock s =
    let len_in_server = length (s.queues lock) in
    let bound = s.len_in_switch lock in
    push_back_loop env lock (if ltb len_in_server bound then len_in_server else bound) stale s

-- FAILURE_NOTIFICATION: `queue_init` on the queue of each recorded lock.
unfoldable pub reset_secondary : List ℕ → Server → Server
reset_secondary [] s = s
reset_secondary (l ∷ ls) s = reset_secondary ls (record s { queues = write s.queues l [] })
