-- ===== src/Combined/Asking.antt =====
-- dpdk_code/client_code/simple_socket.c, the handling of a packet where `role` is the client's, and the
-- drain of the think queue.
use net_lock.Common.{
  ℕ, ◌+◌, ◌%◌, ◌^◌, List, [], ◌∷◌, ◌++◌, Option, none, some, Bool, false, ◌==◌, ◌&&◌, ◌||◌, ltb,
  leb, if◌then◌else◌, write, length,
}
use net_lock.Wire.{
  Env, MessageHeader, Packet, generate_write_request_pkt, ntohl, acquire_lock, release_lock,
  push_back_lock, grant_lock_from_server, reject_lock_acquire,
}
use net_lock.TxnQueue.{TxnQueueNode}
use net_lock.ThinkQueue.{ThinkQueueNode}
use net_lock.Latency.{timediff_in_us, compute_latency}
use net_lock.Client.{
  Config, Client, add64, failure_rollback, failure_normal, max_client_num, max_txn_num,
  max_lock_num, synchronous, tpcc_benchmark, tpcc_uniform_benchmark,
}
use net_lock.Combined.{Frame}

-- `memset(failure_act, act, client_num)`, and the status of the probe is kept; `none` is a write behind
-- the array.
abbrev pub act_by_all : Config → (act status : ℕ) → Client → Option Client
act_by_all cfg act status c =
    if leb cfg.client_num max_client_num
    then some (record c {
      failure_act = λ j. if ltb j cfg.client_num then act else c.failure_act j;
      last_failure_status = status;
    })
    else none

-- A probe.
unfoldable pub probe : Config → (status : ℕ) → Client → Option Client
probe cfg status c =
    if (status == 1) && (c.last_failure_status == 0)
    then act_by_all cfg failure_rollback status c
    else if (status == 0) && (c.last_failure_status == 1)
    then act_by_all cfg failure_normal status c
    else some (record c { last_failure_status = status })

-- `busy[cid][lock_id] = 0` in the synchronous mode.
unfoldable pub unbusy : Config → (cid lock_id : ℕ) → Client → Option Client
unfolding write
unbusy cfg cid lock_id c =
    if cfg.data_transfer_mode == synchronous
    then if ltb cid max_client_num
      then if ltb lock_id max_lock_num
        then some (record c { busy = write c.busy cid (write (c.busy cid) lock_id false) })
        else none
      else none
    else some c

unfoldable pub release_pkt : Env → Config → (mode lock_id txn_id cid : ℕ) → Packet
unfolding generate_write_request_pkt
release_pkt env cfg mode lock_id txn_id cid =
    generate_write_request_pkt env release_lock mode lock_id txn_id cfg.ip_src 0 0 cid

abbrev pub behind : Packet → Option (Client × List Packet) → Option (Client × List Packet)
behind p none = none
behind p (some (c, out)) = some (c, p ∷ out)

-- `while (ptr != NULL)`; the queue is empty then, and `last_drain_tq_tsc` is set.
unfoldable pub while_thinking :
    Env → Config → (cur_tsc : ℕ) → List ThinkQueueNode → Client → Option (Client × List Packet)
unfolding unbusy release_pkt
while_thinking env cfg cur_tsc [] c =
    some (record c { think_queue = []; last_drain_tq_tsc = cur_tsc }, [])
while_thinking env cfg cur_tsc (n ∷ ptr) c = elim (unbusy cfg n.client_id n.lock_id c) [
  | none ↦ none
  | some c' ↦
      behind (release_pkt env cfg n.mode n.lock_id n.txn_id n.client_id)
        (while_thinking env cfg cur_tsc ptr c')
]

-- `if (cur_tsc > last_drain_tq_tsc + increment_time)`.
unfoldable pub drain_if_due : Env → Config → (cur_tsc : ℕ) → Client → Option (Client × List Packet)
unfolding while_thinking
drain_if_due env cfg cur_tsc c =
    if ltb ((c.last_drain_tq_tsc + cfg.increment_time) % 2 ^ 64) cur_tsc
    then while_thinking env cfg cur_tsc c.think_queue c
    else some (c, [])

-- The latency of a reply; `none` is a division by 0 or a write behind the 100000 samples.
unfoldable pub note_latency : Env → Config → (payload : ℕ) → Client → Option Client
unfolding timediff_in_us compute_latency
note_latency env cfg payload c0 =
    let latency = timediff_in_us cfg.tsc_hz env.now payload in
    let c : Client = record c0 { latency = compute_latency latency c0.latency } in
    if c.sample_start
    then if cfg.sample_interval == 0
      then none
      else if c.latency.num % cfg.sample_interval == 0
      then if ltb (length c.samples) 100000
        then some (record c { samples = c.samples ++ latency ∷ [] })
        else none
      else some c
    else some c

-- `txn_enqueue` and what follows it: a lack of memory is not noticed.
unfoldable pub note_grant :
    (has_memory : Bool) → (mode opt lock_id txn_id cid : ℕ) → Client → Option Client
unfolding write
note_grant has_memory mode opt lock_id txn_id cid c =
    let t = c.txns cid txn_id in
    let node : TxnQueueNode = record { mode = mode; op_type = opt; lock_id = lock_id } in
    if ltb cid max_client_num && ltb txn_id max_txn_num
    then some (record c {
      txns = write c.txns cid (
          write (c.txns cid) txn_id (record t {
            queue = if has_memory then t.queue ++ node ∷ [] else t.queue;
            txn_r = t.txn_r + 1;
          }));
      detect_failure = write c.detect_failure cid 0;
    })
    else none

-- `think_enqueue`, and a drain if it is due.
unfoldable pub keep_to_think :
    Env
    → Config
    → (cur_tsc : ℕ) → (has_memory : Bool) → (mode lock_id txn_id cid : ℕ) → Client
    → Option (Client × List Packet)
unfolding drain_if_due
keep_to_think env cfg cur_tsc has_memory mode lock_id txn_id cid c =
    let n : ThinkQueueNode = record {
      mode = mode;
      client_id = cid;
      lock_id = lock_id;
      txn_id = txn_id;
      grant_time = env.now;
    } in
    drain_if_due env cfg cur_tsc
      (if has_memory then record c { think_queue = c.think_queue ++ n ∷ [] } else c)

-- `rx`, `rx_read` and `rx_write`, by the operation.
abbrev pub tally : (opt : ℕ) → Option (Client × List Packet) → Option (Client × List Packet)
tally opt none = none
tally opt (some (c, out)) = some (
  (if (opt == acquire_lock) || (opt == push_back_lock) || (opt == grant_lock_from_server)
      then record c { rx = add64 c.rx 1; rx_read = add64 c.rx_read 1 }
      else if opt == release_lock
      then record c { rx = add64 c.rx 1; rx_write = add64 c.rx_write 1 }
      else record c { rx = add64 c.rx 1 }),
  out,
)

abbrev pub silently : Option Client → Option (Client × List Packet)
silently none = none
silently (some c) = some (c, [])

abbrev pub replying : Packet → Option Client → Option (Client × List Packet)
replying p none = none
replying p (some c) = some (c, p ∷ [])

abbrev pub is_tpcc : Config → Bool
is_tpcc cfg = (cfg.benchmark == tpcc_benchmark) || (cfg.benchmark == tpcc_uniform_benchmark)

-- What becomes of a grant.
unfoldable pub use_grant :
    Env
    → Config
    → (cur_tsc : ℕ) → (has_memory : Bool) → (mode opt lock_id txn_id cid : ℕ) → Client
    → Option (Client × List Packet)
unfolding note_grant keep_to_think unbusy release_pkt
use_grant env cfg cur_tsc has_memory mode opt lock_id txn_id cid c =
    if is_tpcc cfg
    then silently (note_grant has_memory mode opt lock_id txn_id cid c)
    else tally opt (
        if cfg.think_time == 0
        then replying (release_pkt env cfg mode lock_id txn_id cid) (unbusy cfg cid lock_id c)
        else keep_to_think env cfg cur_tsc has_memory mode lock_id txn_id cid c)

abbrev pub when_noted :
    Env
    → Config
    → (cur_tsc : ℕ) → (has_memory : Bool) → MessageHeader
    → Option Client
    → Option (Client × List Packet)
when_noted env cfg cur_tsc has_memory h none = none
when_noted env cfg cur_tsc has_memory h (some c) =
    use_grant env cfg cur_tsc has_memory h.mode h.op_type (ntohl h.lock_id) (ntohl h.txn_id)
      h.client_id c

-- A received packet; `client_index_s` is 0 for a receiving core.
unfoldable pub ask :
    Env
    → Config
    → (cur_tsc : ℕ) → (has_memory : Bool) → Frame
    → Client
    → Option (Client × List Packet)
unfolding probe note_latency use_grant ntohl generate_write_request_pkt
ask env cfg cur_tsc has_memory f c =
    let h = f.header in
    if f.dst_port == cfg.port_probe
    then silently (probe cfg f.failure_status c)
    else if c.failure_act 0 == failure_normal
    then if h.op_type == reject_lock_acquire
      then some (
        c,
        generate_write_request_pkt env acquire_lock h.mode (ntohl h.lock_id) (ntohl h.txn_id)
              cfg.ip_src 0 0 h.client_id
            ∷ [],
      )
      else when_noted env cfg cur_tsc has_memory h (note_latency env cfg h.payload c)
    else some (c, [])
