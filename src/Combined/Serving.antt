-- ===== src/Combined/Serving.antt =====
-- dpdk_code/client_code/simple_socket.c, the handling of a packet where `role` is not the client's. The
-- queues are the lists that LockQueue.Fifo shows the linked lists to stand for.
use net_lock.Common.{
  ℕ, zero, suc, ◌+◌, ◌*◌, ◌^◌, List, [], ◌∷◌, ◌++◌, map, Option, none, some, Bool, ◌==◌, ltb,
  if◌then◌else◌, length, write,
}
use net_lock.Wire.{
  Env, Packet, ntohl, generate_write_request_pkt, acquire_lock, release_lock, push_back_lock,
  grant_lock_from_server, shared_lock, exclusive_lock,
}
use net_lock.LockQueue.{QueueNode, Dequeued}
use net_lock.Server.{
  Server, primary_backup, secondary_backup, failure_notification, max_lock_num, inc32, dec32, add64,
  pop,
}
use net_lock.Combined.{Frame}

-- What the packet puts into the queue; `ip_from_eth` is from the source address.
abbrev pub entry_of : Frame → QueueNode
entry_of f = record {
  mode = f.header.mode;
  client_id = f.header.client_id;
  txn_id = f.header.txn_id;
  ip_src = f.src2 + f.src3 * 2 ^ 8 + f.src4 * 2 ^ 16 + f.src5 * 2 ^ 24;
  timestamp = f.header.payload;
}

-- `enqueue`: without memory the error is printed, and the handling goes on.
unfoldable pub put_last : (has_memory : Bool) → ℕ → QueueNode → Server → Server
put_last has_memory lock n s =
    if has_memory then record s { queues = write s.queues lock (s.queues lock ++ n ∷ []) } else s

-- GRANT_LOCK_FROM_SERVER to each of the requests, counted by `rx_read`.
unfoldable pub grant_to : Env → ℕ → List QueueNode → Server → Server × List Packet
unfolding generate_write_request_pkt ntohl
grant_to env lock ns s = (
  record s { rx_read = add64 s.rx_read (length ns) },
  map
      (λ (n : QueueNode).
        generate_write_request_pkt env grant_lock_from_server n.mode lock (ntohl n.txn_id) n.ip_src
          n.ip_src n.timestamp n.client_id)
      ns,
)

-- ACQUIRE_LOCK where this server owns the lock.
unfoldable pub acquire : Env → (has_memory : Bool) → ℕ → QueueNode → Server → Server × List Packet
unfolding put_last grant_to
acquire env has_memory lock n s0 =
    let s = put_last has_memory lock n s0 in
    if n.mode == shared_lock
    then grant_to env lock (if s.num_ex lock == 0 then n ∷ [] else [])
        (record s { num_sh = write s.num_sh lock (inc32 (s.num_sh lock)) })
    else if n.mode == exclusive_lock
    then grant_to env lock
        (if s.num_ex lock == 0 then (if s.num_sh lock == 0 then n ∷ [] else []) else [])
        (record s { num_ex = write s.num_ex lock (inc32 (s.num_ex lock)) })
    else (s, [])

-- `while ((ptr != NULL) && (ptr->mode == SHARED_LOCK))`.
unfoldable pub while_shared : List QueueNode → List QueueNode
while_shared [] = []
while_shared (n ∷ ptr) =
    let rest = while_shared ptr in if n.mode == shared_lock then n ∷ rest else []

-- Who is told of a shared release: `ptr` is the new head.
unfoldable pub told_by_shared : (ptr : List QueueNode) → List QueueNode
told_by_shared [] = []
told_by_shared (n ∷ ptr) = if n.mode == exclusive_lock then n ∷ [] else []

-- Who is told of an exclusive release.
unfoldable pub told_by_exclusive : (ptr : List QueueNode) → List QueueNode
unfolding while_shared
told_by_exclusive [] = []
told_by_exclusive (n ∷ ptr) = if n.mode == exclusive_lock then n ∷ [] else while_shared (n ∷ ptr)

-- RELEASE_LOCK where this server owns the lock.
unfoldable pub let_go : Env → (stale : Dequeued) → ℕ → Server → Server × List Packet
unfolding pop grant_to told_by_shared told_by_exclusive
let_go env stale lock s0 =
    let (d, ptr) = pop stale (s0.queues lock) in
    let s = record s0 { queues = write s0.queues lock ptr } in
    if d.mode == shared_lock
    then grant_to env lock (told_by_shared ptr)
        (record s { num_sh = write s.num_sh lock (dec32 (s.num_sh lock)) })
    else if d.mode == exclusive_lock
    then grant_to env lock (told_by_exclusive ptr)
        (record s { num_ex = write s.num_ex lock (dec32 (s.num_ex lock)) })
    else (s, [])

-- PUSH_BACK_LOCK for the oldest requests, by the rounds left; counted by `rx_write`.
unfoldable pub push_loop : Env → ℕ → (rounds : ℕ) → Dequeued → Server → Server × List Packet
unfolding pop generate_write_request_pkt
push_loop env lock zero stale s = (s, [])
push_loop env lock (suc k) stale s =
    let (d, rest) = pop stale (s.queues lock) in
    let (s', out) =
      push_loop env lock k d
        (record s { queues = write s.queues lock rest; rx_write = add64 s.rx_write 1 }) in
    (
      s',
      generate_write_request_pkt env push_back_lock d.mode lock d.txn_id d.ip_src 0 d.timestamp
            d.client_id
          ∷ out,
    )

-- `queue_init` on the queue of each recorded lock.
unfoldable pub init_each : List ℕ → Server → Server
init_each [] s = s
init_each (l ∷ ls) s = init_each ls (record s { queues = write s.queues l [] })

-- `tput_stat[lcore_id].rx += 1`; an index behind the arrays gives `none`.
abbrev pub counted_at : ℕ → Server × List Packet → Option (Server × List Packet)
counted_at lock (s, out) =
    if ltb lock max_lock_num then some (record s { rx = add64 s.rx 1 }, out) else none

abbrev pub counted : Server → Option (Server × List Packet)
counted s = some (record s { rx = add64 s.rx 1 }, [])

unfoldable pub serve :
    Env → (has_memory : Bool) → (stale : Dequeued) → Frame → Server → Option (Server × List Packet)
unfolding ntohl put_last acquire let_go push_loop init_each
serve env has_memory stale f s =
    let lock = ntohl f.header.lock_id in
    let len_in_server = length (s.queues lock) in
    let bound = s.len_in_switch lock in
    if f.mem_role == failure_notification
    then counted (init_each s.secondary_locks s)
    else if f.header.op_type == acquire_lock
    then if f.mem_role == secondary_backup
      then counted_at lock (put_last has_memory lock (entry_of f) s, [])
      else if f.mem_role == primary_backup
      then counted_at lock (acquire env has_memory lock (entry_of f) s)
      else counted s
    else if f.header.op_type == release_lock
    then if f.mem_role == secondary_backup
      then counted_at lock
          (push_loop env lock (if ltb len_in_server bound then len_in_server else bound) stale s)
      else if f.mem_role == primary_backup
      then counted_at lock (let_go env stale lock s)
      else counted s
    else counted s
