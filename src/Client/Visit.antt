-- ===== src/Client/Visit.antt =====
-- `np_client_tx_write_loop` of dpdk_code/client_code/client.c: what it does for one client in a round.
pub mod Sound
pub mod Phases
use net_lock.Common.{
  ℕ, zero, suc, ◌+◌, ◌-◌, ◌/◌, ◌%◌, ◌^◌, List, [], ◌∷◌, ◌++◌, Option, none, some, Bool, true, false,
  ◌==◌, ◌&&◌, leb, ltb, if◌then◌else◌, write,
}
use net_lock.Wire.{Env, Packet, generate_write_request_pkt, acquire_lock}
use net_lock.Client.{
  Txn, Config, Client, is_tpcc, add64, failure_rollback, failure_stop, synchronous,
}
use net_lock.Client.Transaction.{Clock, Settled, settle}

-- The trace of each client, at `[cid][index]`, and how objects are grouped into locks.
pub record Trace : Type 0 where
  pub len : ℕ → ℕ
  pub txn_id : ℕ → ℕ → ℕ
  pub action_type : ℕ → ℕ → ℕ
  pub target_obj_idx : ℕ → ℕ → ℕ
  pub lock_type : ℕ → ℕ → ℕ
  pub extensive_locks : ℕ
  pub obj_per_lock : ℕ

-- What the loop keeps beside the client: where each client is in its trace, and its locals.
pub record Sender : Type 0 where
  pub idx : ℕ → ℕ
  pub last_txn_idx : ℕ → ℕ
  pub last_txn : ℕ
  pub expire_idx : ℕ
  pub pkts_send_ms : ℕ

abbrev pub Visited : Type 0
Visited = Sender × Client × List Packet

unfoldable pub lock_id_of : Trace → ℕ → ℕ
lock_id_of w obj =
    if leb obj w.extensive_locks
    then obj
    else w.extensive_locks + 1 + (obj - w.extensive_locks - 1) / w.obj_per_lock

abbrev pub set_txn : (cid txn_id : ℕ) → Txn → Client → Client
set_txn cid txn_id t c = record c { txns = write c.txns cid (write (c.txns cid) txn_id t) }

abbrev pub advance : ℕ → Sender → Sender
advance cid s = record s { idx = write s.idx cid (s.idx cid + 1) }

abbrev pub rewind : ℕ → Sender → Sender
rewind cid s = record s { idx = write s.idx cid (s.last_txn_idx cid) }

-- A transaction begins again: its grants are forgotten.
abbrev pub restarted : (cur_tsc : ℕ) → Txn → Txn
restarted cur_tsc t = record t {
  refresh_time = cur_tsc;
  refresh_time_failure = cur_tsc;
  queue = [];
  txn_s = 0;
  txn_r = 0;
  num_retries = 0;
}

-- While the switch is down nothing is sent.
unfoldable pub stand_still : Clock → (cid : ℕ) → Sender → Client → Visited
unfolding write
stand_still clock cid s c =
    let t = c.txns cid s.last_txn in
    (
      record (rewind cid s) { expire_idx = 0 },
      record (set_txn cid s.last_txn (restarted clock.cur_tsc t) c) {
        failure_act =
            if c.failure_act cid == failure_rollback
            then write c.failure_act cid failure_stop
            else c.failure_act;
      },
      [],
    )

-- The first request of a transaction starts its clocks.
abbrev pub started : Clock → Txn → Txn
started clock t = record t {
  begin_time = if t.begin_time == 0 then clock.begin_now else t.begin_time;
  refresh_time = if t.begin_time == 0 then clock.begin_now else t.refresh_time;
  refresh_time_failure = if t.begin_time == 0 then clock.begin_now else t.refresh_time_failure;
  finished = false;
  txn_s = 0;
  num_retries = 0;
}

-- The next request of the trace is sent.
unfoldable pub send_request :
    Env → Config → Trace → Clock → (cid lock_id : ℕ) → Sender → Client → Visited
unfolding write generate_write_request_pkt
send_request env cfg w clock cid lock_id s c =
    let i = s.idx cid in
    let txn = w.txn_id cid i in
    let c1 = if is_tpcc cfg then set_txn cid txn (started clock (c.txns cid txn)) c else c in
    let c2 =
      if cfg.data_transfer_mode == synchronous
      then record c1 { busy = write c1.busy cid (write (c1.busy cid) lock_id true) }
      else c1 in
    let s1 : Sender = if is_tpcc cfg then record s { last_txn = txn } else s in
    (
      record (advance cid s1) { pkts_send_ms = s.pkts_send_ms + 1 },
      c2,
      generate_write_request_pkt env (w.action_type cid i) (w.lock_type cid i) lock_id txn 0 0 0 cid
          ∷ [],
    )

abbrev pub after : List Packet → Visited → Visited
after ps (s, c, out) = (s, c, ps ++ out)

-- The transaction before is over, and the next one, `txn`, begins.
unfoldable pub hand_over : Clock → (cid txn : ℕ) → Sender → Client → Sender × Client
unfolding write
hand_over clock cid txn s c =
    let old = c.txns cid s.last_txn in
    let c1 =
      record (set_txn cid s.last_txn
        (record old { finish_time = clock.finish_now; deadlocked = false }) c) {
          txn_count = add64 c.txn_count 1;
          rx = add64 c.rx old.locks;
        } in
    let new = c1.txns cid txn in
    (
      record s { last_txn_idx = write s.last_txn_idx cid (s.idx cid); expire_idx = 0 },
      set_txn cid txn
          (record new {
            begin_time = 0;
            refresh_time = 0;
            refresh_time_failure = 0;
            finish_time = 0;
            deadlocked = false;
          })
          c1,
    )

-- The transaction before was given up, and begins again.
unfoldable pub retry : (cid txn : ℕ) → Sender → Client → Sender × Client
unfolding write
retry cid txn s c =
    let old = c.txns cid s.last_txn in
    let c1 = set_txn cid s.last_txn (record old { deadlocked = false; finish_time = 0 }) c in
    let new = c1.txns cid txn in
    (
      record (rewind cid s) { expire_idx = 0 },
      set_txn cid txn (record new { refresh_time = 0; refresh_time_failure = 0 }) c1,
    )

-- What follows, by whether the transaction before keeps the client waiting, is over, was given up.
unfoldable pub resume :
    Env
    → Config
    → Trace
    → Clock
    → (cid lock_id txn : ℕ) → (waits finished deadlocked : Bool) → List Packet
    → Sender
    → Client
    → Visited
unfolding send_request hand_over retry
resume env cfg w clock cid lock_id txn true finished deadlocked out s c = (s, c, out)
resume env cfg w clock cid lock_id txn false false deadlocked out s c =
    after out (send_request env cfg w clock cid lock_id s c)
resume env cfg w clock cid lock_id txn false true true out s c =
    let (s', c') = retry cid txn s c in (s', c', out)
resume env cfg w clock cid lock_id txn false true false out s c =
    let (s', c') = hand_over clock cid txn s c in
    after out (send_request env cfg w clock cid lock_id s' c')

abbrev pub store_settled : (cid : ℕ) → Settled → (last_txn : ℕ) → Client → Client
store_settled cid r last_txn c = record (set_txn cid last_txn r.txn c) {
  rx_read = add64 c.rx_read r.server_grants;
  rx_write = add64 c.rx_write r.switch_grants;
}

unfoldable pub go_on :
    Env → Config → Trace → Clock → (cid lock_id txn : ℕ) → Sender → Client → Settled → Visited
unfolding resume write
go_on env cfg w clock cid lock_id txn s c r =
    resume env cfg w clock cid lock_id txn r.waits r.txn.finished r.txn.deadlocked r.out
      (record s { expire_idx = r.expire_idx }) (store_settled cid r s.last_txn c)

-- The trace starts again at its end.
abbrev pub wrapped : Trace → (cid : ℕ) → Sender → Sender
wrapped w cid s = record s { idx = if s.idx cid == w.len cid then write s.idx cid 0 else s.idx }

-- An entry of the trace that asks for a lock.
unfoldable pub request :
    Env → Config → Trace → Clock → (cid lock_id txn : ℕ) → Sender → Client → Option Visited
unfolding settle go_on send_request
request env cfg w clock cid lock_id txn s c =
    if (cfg.data_transfer_mode == synchronous) && c.busy cid lock_id
    then some (advance cid s, c, [])
    else if is_tpcc cfg && (if txn == s.last_txn then false else true)
    then elim (settle env cfg clock s.last_txn cid s.expire_idx (c.txns cid s.last_txn)) [
      | none ↦ none
      | some r ↦ some (go_on env cfg w clock cid lock_id txn s c r)
    ]
    else some (send_request env cfg w clock cid lock_id s c)

unfoldable pub visit : Env → Config → Trace → Clock → (cid : ℕ) → Sender → Client → Option Visited
unfolding write lock_id_of stand_still request
visit env cfg w clock cid s0 c =
    if c.failure_act cid == failure_rollback
    then some (stand_still clock cid s0 c)
    else if c.failure_act cid == failure_stop
    then some (stand_still clock cid s0 c)
    else (let s = wrapped w cid s0 in
        let i = s.idx cid in
        if w.action_type cid i == acquire_lock
        then request env cfg w clock cid (lock_id_of w (w.target_obj_idx cid i)) (w.txn_id cid i) s
            c
        else some (advance cid s, c, []))
