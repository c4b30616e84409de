-- ===== src/Client/Receive.antt =====
-- `np_client_rx_loop` of dpdk_code/client_code/client.c on one received packet.
pub mod Drains
pub mod Answers
use net_lock.Common.{
  ℕ, zero, suc, ◌+◌, ◌%◌, ◌^◌, List, [], ◌∷◌, ◌++◌, Option, none, some, Bool, true, false, ◌==◌,
  ◌&&◌, ◌||◌, ltb, leb, if◌then◌else◌, write, length,
}
use net_lock.Wire.{
  Env, MessageHeader, Packet, generate_write_request_pkt, ntohl, acquire_lock, release_lock,
  push_back_lock, grant_lock_from_server, reject_lock_acquire,
}
use net_lock.ThinkQueue.{ThinkQueueNode}
use net_lock.Latency.{timediff_in_us, compute_latency}
use net_lock.Client.{
  Txn, Config, Client, is_tpcc, add64, release, failure_rollback, failure_normal, max_client_num,
  max_txn_num, max_lock_num, synchronous,
}

-- A received packet: its UDP port in host order, `failure_status` if it is a probe, and the header.
pub record Frame : Type 0 where
  pub dst_port : ℕ
  pub failure_status : ℕ
  pub header : MessageHeader

-- What the round reads beside the packet: `cur_tsc`, and whether `malloc` finds memory.
pub record Round : Type 0 where
  pub cur_tsc : ℕ
  pub has_memory : Bool

-- `client_index_s[lcore_id]` of a receiving core: `main` sets the array for the sending cores only.
abbrev pub first_client : ℕ
first_client = 0

-- `memset(failure_act, act, client_num)`.
abbrev pub set_all : Config → ℕ → Client → Option Client
set_all cfg act c =
    if leb cfg.client_num max_client_num
    then some
        (record c { failure_act = λ j. if ltb j cfg.client_num then act else c.failure_act j })
    else none

abbrev pub set_status : ℕ → Option Client → Option Client
set_status status none = none
set_status status (some c) = some (record c { last_failure_status = status })

-- A probe packet tells that the switch has failed, or works again.
unfoldable pub receive_probe : Config → (status : ℕ) → Client → Option Client
receive_probe cfg status c = set_status status (
    if (status == 1) && (c.last_failure_status == 0)
    then set_all cfg failure_rollback c
    else if (status == 0) && (c.last_failure_status == 1)
    then set_all cfg failure_normal c
    else some c)

-- In the synchronous mode a released lock may be asked for again.
unfoldable pub not_busy : Config → (cid lock_id : ℕ) → Client → Option Client
unfolding write
not_busy cfg cid lock_id c =
    if cfg.data_transfer_mode == synchronous
    then if ltb cid max_client_num
      then if ltb lock_id max_lock_num
        then some (record c { busy = write c.busy cid (write (c.busy cid) lock_id false) })
        else none
      else none
    else some c

abbrev pub answer : Packet → Option Client → Option (Client × List Packet)
answer p none = none
answer p (some c) = some (c, p ∷ [])

abbrev pub and_then : Packet → Option (Client × List Packet) → Option (Client × List Packet)
and_then p none = none
and_then p (some (c, out)) = some (c, p ∷ out)

-- The loop that takes every grant from the think queue and releases its lock.
unfoldable pub drain_loop :
    Env → Config → List ThinkQueueNode → Client → Option (Client × List Packet)
unfolding not_busy release
drain_loop env cfg [] c = some (record c { think_queue = [] }, [])
drain_loop env cfg (n ∷ q) c = elim (not_busy cfg n.client_id n.lock_id c) [
  | none ↦ none
  | some c' ↦
      and_then (release env cfg n.mode n.lock_id n.txn_id n.client_id) (drain_loop env cfg q c')
]

abbrev pub stamp : ℕ → Option (Client × List Packet) → Option (Client × List Packet)
stamp now none = none
stamp now (some (c, out)) = some (record c { last_drain_tq_tsc = now }, out)

unfoldable pub drain : Env → Config → (cur_tsc : ℕ) → Client → Option (Client × List Packet)
unfolding drain_loop
drain env cfg cur_tsc c =
    if ltb ((c.last_drain_tq_tsc + cfg.increment_time) % 2 ^ 64) cur_tsc
    then stamp cur_tsc (drain_loop env cfg c.think_queue c)
    else some (c, [])

-- The drain at the start of each round.
unfoldable pub drain_round : Env → Config → (cur_tsc : ℕ) → Client → Option (Client × List Packet)
unfolding drain
drain_round env cfg cur_tsc c =
    if is_tpcc cfg
    then some (c, [])
    else if cfg.think_time == 0
    then some (c, [])
    else drain env cfg cur_tsc c

abbrev pub sample_capacity : ℕ
sample_capacity = 100000

-- Every `sample_interval`-th latency is kept; `none` is a division by 0 or a write behind the samples.
unfoldable pub sample_latency : Config → (latency : ℕ) → Client → Option Client
sample_latency cfg latency c =
    if c.sample_start
    then if cfg.sample_interval == 0
      then none
      else if c.latency.num % cfg.sample_interval == 0
      then if ltb (length c.samples) sample_capacity
        then some (record c { samples = c.samples ++ latency ∷ [] })
        else none
      else some c
    else some c

unfoldable pub track_latency : Env → Config → (payload : ℕ) → Client → Option Client
unfolding timediff_in_us compute_latency sample_latency
track_latency env cfg payload c =
    let latency = timediff_in_us cfg.tsc_hz env.now payload in
    sample_latency cfg latency (record c { latency = compute_latency latency c.latency })

abbrev pub granted : Bool → (mode opt lock_id : ℕ) → Txn → Txn
granted has_memory mode opt lock_id t = record t {
  queue =
      if has_memory
      then t.queue ++ record { mode = mode; op_type = opt; lock_id = lock_id } ∷ []
      else t.queue;
  txn_r = t.txn_r + 1;
}

-- A lock of a transaction: it is noted, and counted even if there is no memory to note it.
unfoldable pub receive_txn : Bool → (mode opt lock_id txn_id cid : ℕ) → Client → Option Client
unfolding write
receive_txn has_memory mode opt lock_id txn_id cid c =
    if ltb cid max_client_num && ltb txn_id max_txn_num
    then some (record c {
      txns =
          write c.txns cid
            (write (c.txns cid) txn_id (granted has_memory mode opt lock_id (c.txns cid txn_id)));
      detect_failure = write c.detect_failure cid 0;
    })
    else none

unfoldable pub think :
    Env → Config → Round → (mode lock_id txn_id cid : ℕ) → Client → Option (Client × List Packet)
unfolding drain
think env cfg round mode lock_id txn_id cid c =
    let n : ThinkQueueNode = record {
      mode = mode;
      client_id = cid;
      lock_id = lock_id;
      txn_id = txn_id;
      grant_time = env.now;
    } in
    drain env cfg round.cur_tsc
      (if round.has_memory then record c { think_queue = c.think_queue ++ n ∷ [] } else c)

abbrev pub count_reply : (opt : ℕ) → Client → Client
count_reply opt c0 =
    let c : Client = record c0 { rx = add64 c0.rx 1 } in
    if (opt == acquire_lock) || (opt == push_back_lock) || (opt == grant_lock_from_server)
    then record c { rx_read = add64 c.rx_read 1 }
    else if opt == release_lock
    then record c { rx_write = add64 c.rx_write 1 }
    else c

abbrev pub quiet : Option Client → Option (Client × List Packet)
quiet none = none
quiet (some c) = some (c, [])

abbrev pub counted : (opt : ℕ) → Option (Client × List Packet) → Option (Client × List Packet)
counted opt none = none
counted opt (some (c, out)) = some (count_reply opt c, out)

-- What follows a reply that is no rejection, its latency noted.
unfoldable pub receive_grant :
    Env
    → Config
    → Round
    → (mode opt lock_id txn_id cid : ℕ) → Client
    → Option (Client × List Packet)
unfolding receive_txn think not_busy release
receive_grant env cfg round mode opt lock_id txn_id cid c =
    if is_tpcc cfg
    then quiet (receive_txn round.has_memory mode opt lock_id txn_id cid c)
    else counted opt (
        if cfg.think_time == 0
        then answer (release env cfg mode lock_id txn_id cid) (not_busy cfg cid lock_id c)
        else think env cfg round mode lock_id txn_id cid c)

abbrev pub then_grant :
    Env → Config → Round → MessageHeader → Option Client → Option (Client × List Packet)
then_grant env cfg round h none = none
then_grant env cfg round h (some c) =
    receive_grant env cfg round h.mode h.op_type (ntohl h.lock_id) (ntohl h.txn_id) h.client_id c

unfoldable pub receive : Env → Config → Round → Frame → Client → Option (Client × List Packet)
unfolding receive_probe track_latency receive_grant ntohl
receive env cfg round f c =
    let h = f.header in
    if f.dst_port == cfg.port_probe
    then quiet (receive_probe cfg f.failure_status c)
    else if c.failure_act first_client == failure_normal
    then if h.op_type == reject_lock_acquire
      then some (
        c,
        generate_write_request_pkt env acquire_lock h.mode (ntohl h.lock_id) (ntohl h.txn_id)
              cfg.ip_src 0 0 h.client_id
            ∷ [],
      )
      else then_grant env cfg round h (track_latency env cfg h.payload c)
    else some (c, [])
