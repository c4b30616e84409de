-- ===== src/Combined/Alike.antt =====
-- The handling of a packet by the combined program, against that by server.c and by client.c.
use net_lock.Common.{
  ℕ, zero, suc, ◌+◌, ◌%◌, ◌^◌, ◌≡◌, ◌∙◌, refl, sym, ap, inl, inr, List, [], ◌∷◌, Option, none, some,
  Bool, true, false, ◌==◌, ◌&&◌, ltb, leb, if◌then◌else◌, Bool-cases, arith, length,
}
use net_lock.Wire.{
  Env, Packet, MessageHeader, generate_write_request_pkt, reject_lock_acquire, ntohl, acquire_lock,
  release_lock,
}
use net_lock.LockQueue.{QueueNode, Dequeued}
use net_lock.ThinkQueue.{ThinkQueueNode}
use net_lock.Client.{Config, Client, release, is_tpcc, failure_normal}
use net_lock.Client.Receive as Receive
use net_lock.Client.Receive.{
  receive, receive_probe, track_latency, sample_latency, not_busy, drain_loop, drain_round, stamp,
  and_then, receive_txn, think, receive_grant, sample_capacity,
}
use net_lock.Server as Server
use net_lock.Server.{
  Server, failure_notification, primary_backup, secondary_backup, request_of, enqueue_request,
  acquire_primary, release_primary, release_secondary, push_back_loop, push_back, pop,
  reset_secondary, shared_run, wake_after_shared, wake_after_exclusive, grant_all, grant,
  ip_from_eth,
}
use net_lock.Server.Process.{process}
use net_lock.Combined.{Frame, Node, role_client, with_client}
use net_lock.Combined.Serving.{
  serve, counted, counted_at, put_last, acquire, while_shared, told_by_shared, told_by_exclusive,
  push_loop, init_each, entry_of, grant_to,
}
use net_lock.Combined.Handling.{drain}
use net_lock.Combined.Serving as Serving
use net_lock.Combined.Asking as Asking
use net_lock.Combined.Asking.{
  ask, probe, unbusy, release_pkt, while_thinking, drain_if_due, note_latency, note_grant,
  keep_to_think, use_grant,
}

abbrev pub client_frame : Frame → Receive.Frame
client_frame f = record {
  dst_port = f.dst_port;
  failure_status = f.failure_status;
  header = f.header;
}

abbrev pub server_frame : Frame → Server.Frame
server_frame f = record {
  mem_role = f.mem_role;
  src2 = f.src2;
  src3 = f.src3;
  src4 = f.src4;
  src5 = f.src5;
  header = f.header;
}

while_shared_lem : (q : List QueueNode) → while_shared q ≡ shared_run q
unfolding while_shared shared_run
while_shared_lem [] = refl
while_shared_lem (n ∷ q) = rw (while_shared_lem q) refl

told_by_shared_lem : (q : List QueueNode) → told_by_shared q ≡ wake_after_shared q
unfolding told_by_shared wake_after_shared
told_by_shared_lem [] = refl
told_by_shared_lem (n ∷ q) = refl

told_by_exclusive_lem : (q : List QueueNode) → told_by_exclusive q ≡ wake_after_exclusive q
unfolding told_by_exclusive wake_after_exclusive
told_by_exclusive_lem [] = refl
told_by_exclusive_lem (n ∷ q) = rw (while_shared_lem (n ∷ q)) refl

grant_to_lem :
    (env : Env) (lock : ℕ) (ns : List QueueNode) (s : Server)
    → grant_to env lock ns s ≡ grant_all env lock ns s
unfolding grant_to grant_all grant
grant_to_lem env lock ns s = refl

acquire_lem :
    (env : Env) (has_memory : Bool) (lock : ℕ) (n : QueueNode) (s : Server)
    → acquire env has_memory lock n s ≡ acquire_primary env has_memory lock n s
unfolding acquire acquire_primary put_last enqueue_request grant_to grant_all grant
acquire_lem env has_memory lock n s = refl

release_lem :
    (env : Env) (stale : Dequeued) (lock : ℕ) (s : Server)
    → Serving.let_go env stale lock s ≡ release_primary env stale lock s
unfolding Serving.let_go release_primary grant_to grant_all grant
release_lem env stale lock s =
    let rest = (pop stale (s.queues lock)).1 in
    rw (told_by_shared_lem rest, told_by_exclusive_lem rest) refl

push_loop_lem :
    (env : Env) (lock k : ℕ) (stale : Dequeued) (s : Server)
    → push_loop env lock k stale s ≡ push_back_loop env lock k stale s
unfolding push_loop push_back_loop push_back
push_loop_lem env lock zero stale s = refl
push_loop_lem env lock (suc k) stale s =
    let r = pop stale (s.queues lock) in
    ap (λ (x : Server × List Packet). (x.0, push_back env lock r.0 ∷ x.1))
      (push_loop_lem env lock k r.0 _)

init_each_lem : (ls : List ℕ) (s : Server) → init_each ls s ≡ reset_secondary ls s
unfolding init_each reset_secondary
init_each_lem [] s = refl
init_each_lem (l ∷ ls) s = init_each_lem ls _

-- The dispatch on a packet, by what its branches give.
abbrev dispatch :
    Frame
    → Server
    → (put : Server) → (init : Server) → (acq push rel : Server × List Packet)
    → Option (Server × List Packet)
dispatch f s put init acq push rel =
    let lock = ntohl f.header.lock_id in
    if f.mem_role == failure_notification
    then counted init
    else if f.header.op_type == acquire_lock
    then if f.mem_role == secondary_backup
      then counted_at lock (put, [])
      else if f.mem_role == primary_backup
      then counted_at lock acq
      else counted s
    else if f.header.op_type == release_lock
    then if f.mem_role == secondary_backup
      then counted_at lock push
      else if f.mem_role == primary_backup
      then counted_at lock rel
      else counted s
    else counted s

-- A packet at a lock server.
pub serve-process :
    (env : Env) (has_memory : Bool) (stale : Dequeued) (f : Frame) (s : Server)
    → serve env has_memory stale f s
      ≡ process env (record { has_memory = has_memory; stale = stale }) (server_frame f) s
unfolding serve process release_secondary request_of ip_from_eth put_last enqueue_request
serve-process env has_memory stale f s =
    let lock = ntohl f.header.lock_id in
    let n = entry_of f in
    let put = put_last has_memory lock n s in
    let init = init_each s.secondary_locks s in
    let len = length (s.queues lock) in
    let bound = s.len_in_switch lock in
    let rounds = if ltb len bound then len else bound in
    let acq = acquire env has_memory lock n s in
    let acq' = acquire_primary env has_memory lock n s in
    let push = push_loop env lock rounds stale s in
    let push' = push_back_loop env lock rounds stale s in
    let rel = Serving.let_go env stale lock s in
    ap (λ x. dispatch f s put x acq push rel) (init_each_lem s.secondary_locks s)
    ∙ ap (λ x. dispatch f s put (reset_secondary s.secondary_locks s) x push rel)
        (acquire_lem env has_memory lock n s)
    ∙ ap (λ x. dispatch f s put (reset_secondary s.secondary_locks s) acq' x rel)
        (push_loop_lem env lock rounds stale s)
    ∙ ap (λ x. dispatch f s put (reset_secondary s.secondary_locks s) acq' push' x)
        (release_lem env stale lock s)

probe_lem :
    (cfg : Config) (status : ℕ) (c : Client) → probe cfg status c ≡ receive_probe cfg status c
unfolding probe receive_probe
probe_lem cfg status c = elim (Bool-cases (leb cfg.client_num 8)) [
  | inl few ↦ elim (Bool-cases ((status == 1) && (c.last_failure_status == 0))) [
    | inl fails ↦ rw (few, fails) refl
    | inr on ↦ elim (Bool-cases ((status == 0) && (c.last_failure_status == 1))) [
      | inl works ↦ rw (few, on, works) refl
      | inr same ↦ rw (on, same) refl
    ]
  ]
  | inr many ↦ elim (Bool-cases ((status == 1) && (c.last_failure_status == 0))) [
    | inl fails ↦ rw (many, fails) refl
    | inr on ↦ elim (Bool-cases ((status == 0) && (c.last_failure_status == 1))) [
      | inl works ↦ rw (many, on, works) refl
      | inr same ↦ rw (on, same) refl
    ]
  ]
]

stamp-and_then :
    (now : ℕ) (p : Packet) (o : Option (Client × List Packet))
    → stamp now (and_then p o) ≡ Asking.behind p (stamp now o)
stamp-and_then now p none = refl
stamp-and_then now p (some (c, out)) = refl

thinking_step :
    (now : ℕ) (p : Packet) (f g : Client → Option (Client × List Packet))
    → ((c : Client) → f c ≡ stamp now (g c))
    → (o : Option Client)
    → (elim o [ none ↦ none | some c ↦ Asking.behind p (f c) ])
      ≡ stamp now (elim o [ none ↦ none | some c ↦ and_then p (g c) ])
thinking_step now p f g same none = refl
thinking_step now p f g same (some c) =
    ap (Asking.behind p) (same c) ∙ sym (stamp-and_then now p (g c))

while_thinking_lem :
    (env : Env) (cfg : Config) (now : ℕ) (q : List ThinkQueueNode) (c : Client)
    → while_thinking env cfg now q c ≡ stamp now (drain_loop env cfg q c)
unfolding while_thinking drain_loop unbusy not_busy release_pkt release
while_thinking_lem env cfg now [] c = refl
while_thinking_lem env cfg now (n ∷ q) c =
    thinking_step now (release env cfg n.mode n.lock_id n.txn_id n.client_id)
      (while_thinking env cfg now q) (drain_loop env cfg q) (while_thinking_lem env cfg now q)
      (not_busy cfg n.client_id n.lock_id c)

pub drain_if_due_lem :
    (env : Env) (cfg : Config) (now : ℕ) (c : Client)
    → drain_if_due env cfg now c ≡ Receive.drain env cfg now c
unfolding drain_if_due Receive.drain
drain_if_due_lem env cfg now c =
    ap
      (λ o.
        if ltb ((c.last_drain_tq_tsc + cfg.increment_time) % 2 ^ 64) now then o else some (c, []))
      (while_thinking_lem env cfg now c.think_queue c)

keep_to_think_lem :
    (env : Env) (cfg : Config) (now : ℕ) (b : Bool) (mode lock_id txn_id cid : ℕ) (c : Client)
    → keep_to_think env cfg now b mode lock_id txn_id cid c
      ≡ think env cfg (record { cur_tsc = now; has_memory = b }) mode lock_id txn_id cid c
unfolding keep_to_think think
keep_to_think_lem env cfg now b mode lock_id txn_id cid c = drain_if_due_lem env cfg now _

tally_lem :
    (opt : ℕ) (o : Option (Client × List Packet)) → Asking.tally opt o ≡ Receive.counted opt o
tally_lem opt none = refl
tally_lem opt (some (c, out)) = refl

silently_lem : (o : Option Client) → Asking.silently o ≡ Receive.quiet o
silently_lem none = refl
silently_lem (some c) = refl

replying_lem : (p : Packet) (o : Option Client) → Asking.replying p o ≡ Receive.answer p o
replying_lem p none = refl
replying_lem p (some c) = refl

use_grant_lem :
    (env : Env) (cfg : Config) (now : ℕ) (b : Bool) (mode opt lock_id txn_id cid : ℕ) (c : Client)
    → use_grant env cfg now b mode opt lock_id txn_id cid c
      ≡ receive_grant env cfg
          (record { cur_tsc = now; has_memory = b })
          mode
          opt
          lock_id
          txn_id
          cid
          c
unfolding use_grant receive_grant note_grant receive_txn unbusy not_busy release_pkt release
use_grant_lem env cfg now b mode opt lock_id txn_id cid c =
    let p = release env cfg mode lock_id txn_id cid in
    let granted = receive_txn b mode opt lock_id txn_id cid c in
    let freed = not_busy cfg cid lock_id c in
    let thinks =
      think env cfg (record { cur_tsc = now; has_memory = b }) mode lock_id txn_id cid c in
    let by = λ (x y : Option (Client × List Packet)). if is_tpcc cfg then x else y in
    let kept = λ (x y : Option (Client × List Packet)). if cfg.think_time == 0 then x else y in
    let kept_now = keep_to_think env cfg now b mode lock_id txn_id cid c in
    ap (λ x. by x (Asking.tally opt (kept (Asking.replying p freed) kept_now)))
      (silently_lem granted)
    ∙ ap (λ x. by (Receive.quiet granted) (Asking.tally opt (kept x kept_now)))
        (replying_lem p freed)
    ∙ ap (λ x. by (Receive.quiet granted) (Asking.tally opt (kept (Receive.answer p freed) x)))
        (keep_to_think_lem env cfg now b mode lock_id txn_id cid c)
    ∙ ap (by (Receive.quiet granted)) (tally_lem opt (kept (Receive.answer p freed) thinks))

when_noted_lem :
    (env : Env) (cfg : Config) (now : ℕ) (b : Bool) (h : MessageHeader) (o : Option Client)
    → Asking.when_noted env cfg now b h o
      ≡ Receive.then_grant env cfg (record { cur_tsc = now; has_memory = b }) h o
when_noted_lem env cfg now b h none = refl
when_noted_lem env cfg now b h (some c) =
    use_grant_lem env cfg now b h.mode h.op_type (ntohl h.lock_id) (ntohl h.txn_id) h.client_id c

-- A packet at a client.
pub ask-receive :
    (env : Env) (cfg : Config) (now : ℕ) (b : Bool) (f : Frame) (c : Client)
    → ask env cfg now b f c
      ≡ receive env cfg (record { cur_tsc = now; has_memory = b }) (client_frame f) c
unfolding ask receive note_latency track_latency sample_latency
ask-receive env cfg now b f c =
    let h = f.header in
    let noted = track_latency env cfg h.payload c in
    let again : Option (Client × List Packet) = some (
      c,
      generate_write_request_pkt env acquire_lock h.mode (ntohl h.lock_id) (ntohl h.txn_id)
            cfg.ip_src 0 0 h.client_id
          ∷ [],
    ) in
    let branch = λ (x y : Option (Client × List Packet)).
      if f.dst_port == cfg.port_probe
      then x
      else if c.failure_act 0 == failure_normal
      then (if h.op_type == reject_lock_acquire then again else y)
      else some (c, []) in
    ap (λ x. branch x (Asking.when_noted env cfg now b h noted))
      (silently_lem (probe cfg f.failure_status c)
        ∙ ap Receive.quiet (probe_lem cfg f.failure_status c))
    ∙ ap (branch (Receive.quiet (receive_probe cfg f.failure_status c)))
        (when_noted_lem env cfg now b h noted)

-- The drain of a server.
pub drain-server :
    (role : ℕ) (env : Env) (cfg : Config) (now : ℕ) (n : Node)
    → (role == role_client) ≡ false
    → drain role env cfg now n ≡ some (n, [])
unfolding drain
drain-server role env cfg now n other = elim (Bool-cases (is_tpcc cfg)) [
  | inl tpcc ↦ rw tpcc refl
  | inr not_tpcc ↦ elim (Bool-cases (ltb 0 cfg.think_time)) [
    | inl thinks ↦ rw (not_tpcc, thinks, other) refl
    | inr never ↦ rw (not_tpcc, never) refl
  ]
]

-- The drain of a client.
pub drain-drain_round :
    (role : ℕ) (env : Env) (cfg : Config) (now : ℕ) (n : Node)
    → (role == role_client) ≡ true
    → drain role env cfg now n ≡ with_client n (drain_round env cfg now n.client)
unfolding drain drain_round
drain-drain_round role env cfg now n ours = elim (Bool-cases (is_tpcc cfg)) [
  | inl tpcc ↦ rw tpcc refl
  | inr not_tpcc ↦ elim (Bool-cases (cfg.think_time == 0)) [
    | inl zeroth ↦
        let never : ltb 0 cfg.think_time ≡ false = ground (arith, zeroth) in
        rw (not_tpcc, zeroth, never) refl
    | inr thinks ↦
        let some_time : ltb 0 cfg.think_time ≡ true = ground (arith, thinks) in
        rw (not_tpcc, thinks, some_time, ours)
          (ap (with_client n) (drain_if_due_lem env cfg now n.client))
  ]
]
