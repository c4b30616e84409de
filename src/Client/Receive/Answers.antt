-- ===== src/Client/Receive/Answers.antt =====
-- Outside the TPC-C benchmarks every grant is answered by one release, now or after the think time.
use net_lock.Common.{
  ℕ, ◌%◌, ◌<◌, ◌≡◌, inl, inr, refl, sym, ap, ◌∙◌, subst, ◌≢◌, List, [], ◌∷◌, ◌++◌, map, some, true,
  false, ◌==◌, length, All, arith, map-append, All-append, Bool-cases, lt→ltb, ==→eq, ne→==, eq→==,
}
use net_lock.Wire.{Env, MessageHeader, Packet, ntohl, reject_lock_acquire}
use net_lock.ThinkQueue.{ThinkQueueNode}
use net_lock.Latency.{timediff_in_us, compute_latency}
use net_lock.Client.{Config, Client, is_tpcc, release, failure_normal, max_client_num, max_lock_num}
use net_lock.Client.Receive.{
  Frame, Round, drain_round, sample_latency, sample_capacity, track_latency, think, receive_grant,
  receive, count_reply, first_client,
}
use net_lock.Client.Receive.Drains.{IsIndexed, released, not_busy-IsIndexed, drain-released}

-- Room for another latency sample.
pub record HasRoom (cfg : Config) (c : Client) : Type 0 where
  pub interval : 0 < cfg.sample_interval
  pub room : length c.samples < sample_capacity

sample_latency-HasRoom :
    (cfg : Config) (latency : ℕ) (c : Client)
    → HasRoom cfg c
    → (c' : Client) × ((sample_latency cfg latency c ≡ some c')
        × ((c'.think_queue ≡ c.think_queue) × (c'.failure_act ≡ c.failure_act)))
unfolding sample_latency
sample_latency-HasRoom cfg latency c h =
    let divides : (cfg.sample_interval == 0) ≡ false = ground (arith, h.interval) in
    elim (Bool-cases c.sample_start) [
      | inr off ↦ (c, (rw off refl, (refl, refl)))
      | inl on ↦ elim (Bool-cases (c.latency.num % cfg.sample_interval == 0)) [
        | inr not_due ↦ (c, (rw (on, divides, not_due) refl, (refl, refl)))
        | inl due ↦ (
          record c { samples = c.samples ++ latency ∷ [] },
          (rw (on, divides, due, lt→ltb (length c.samples) 100000 h.room) refl, (refl, refl)),
        )
      ]
    ]

-- The grant that a reply makes.
abbrev pub grant_of : Env → MessageHeader → ThinkQueueNode
grant_of env h = record {
  mode = h.mode;
  client_id = h.client_id;
  lock_id = ntohl h.lock_id;
  txn_id = ntohl h.txn_id;
  grant_time = env.now;
}

think-released :
    (env : Env) (cfg : Config) (round : Round) (mode lock_id txn_id cid : ℕ) (c : Client)
    → round.has_memory ≡ true
    → All IsIndexed c.think_queue
    → cid < max_client_num
    → lock_id < max_lock_num
    → (c' : Client) × (out : List Packet) × ((think env cfg round mode lock_id txn_id cid c
          ≡ some (c', out))
        × ((out ++ map (released env cfg) c'.think_queue
              ≡ map (released env cfg) c.think_queue
                ++ release env cfg mode lock_id txn_id cid ∷ [])
            × All IsIndexed c'.think_queue))
unfolding think
think-released env cfg round mode lock_id txn_id cid c mem all h h' =
    let n : ThinkQueueNode = record {
      mode = mode;
      client_id = cid;
      lock_id = lock_id;
      txn_id = txn_id;
      grant_time = env.now;
    } in
    let (c', out, (ran, (owed, all'))) =
      drain-released env cfg round.cur_tsc (record c { think_queue = c.think_queue ++ n ∷ [] })
        (All-append IsIndexed c.think_queue (n ∷ []) all ((h, h'), tt)) in
    (c', out, (rw mem ran, (owed ∙ map-append (released env cfg) c.think_queue (n ∷ []), all')))

-- Who keeps no grants has none to release.
abbrev pub KeepsOrder : Config → Client → Type 0
KeepsOrder cfg c = (cfg.think_time ≡ 0) → c.think_queue ≡ []

count_reply_same : (opt : ℕ) (c : Client) → (count_reply opt c).think_queue ≡ c.think_queue
count_reply_same opt c = ground arith

receive_grant-released :
    (env : Env) (cfg : Config) (round : Round) (mode opt lock_id txn_id cid : ℕ) (c : Client)
    → is_tpcc cfg ≡ false
    → round.has_memory ≡ true
    → KeepsOrder cfg c
    → All IsIndexed c.think_queue
    → cid < max_client_num
    → lock_id < max_lock_num
    → (c' : Client) × (out : List Packet) × ((receive_grant env cfg round mode opt lock_id txn_id
            cid c
          ≡ some (c', out))
        × ((out ++ map (released env cfg) c'.think_queue
              ≡ map (released env cfg) c.think_queue
                ++ release env cfg mode lock_id txn_id cid ∷ [])
            × (All IsIndexed c'.think_queue × KeepsOrder cfg c')))
unfolding receive_grant
receive_grant-released env cfg round mode opt lock_id txn_id cid c other mem order all h h' =
    elim (Bool-cases (cfg.think_time == 0)) [
      | inl at_once ↦
          let (c', (ran, same)) = not_busy-IsIndexed cfg cid lock_id c h h' in
          let same' = count_reply_same opt c' in
          let none_kept : c.think_queue ≡ [] = order (==→eq cfg.think_time 0 at_once) in
          let at_once_owed : release env cfg mode lock_id txn_id cid
                ∷ map (released env cfg) (count_reply opt c').think_queue
              ≡ map (released env cfg) c.think_queue
                ++ release env cfg mode lock_id txn_id cid ∷ [] =
            rw (same', same, none_kept) refl in
          (
            count_reply opt c',
            release env cfg mode lock_id txn_id cid ∷ [],
            (
              rw (other, at_once, ran) refl,
              (
                at_once_owed,
                (subst (All IsIndexed) (sym (same' ∙ same)) all, λ z. same' ∙ (same ∙ order z)),
              ),
            ),
          )
      | inr later ↦
          let (c', out, (ran, (owed, all'))) =
            think-released env cfg round mode lock_id txn_id cid c mem all h h' in
          let same' = count_reply_same opt c' in
          (
            count_reply opt c',
            out,
            (
              rw (other, later, ran) refl,
              (
                ap (λ q. out ++ map (released env cfg) q) same' ∙ owed,
                (subst (All IsIndexed) (sym same') all', λ z. ground (arith, z, later)),
              ),
            ),
          )
    ]

-- A reply that comes in normal operation outside TPC-C, for a lock and a client within the arrays,
-- with memory and room for a latency sample: the releases that are sent and those still owed are
-- together the ones that were owed, in order, and the one for this reply.
pub receive-released :
    (env : Env) (cfg : Config) (round : Round) (f : Frame) (c : Client)
    → f.dst_port ≢ cfg.port_probe
    → c.failure_act first_client ≡ failure_normal
    → f.header.op_type ≢ reject_lock_acquire
    → is_tpcc cfg ≡ false
    → round.has_memory ≡ true
    → HasRoom cfg c
    → KeepsOrder cfg c
    → All IsIndexed c.think_queue
    → f.header.client_id < max_client_num
    → ntohl f.header.lock_id < max_lock_num
    → (c' : Client) × (out : List Packet) × ((receive env cfg round f c ≡ some (c', out))
        × ((out ++ map (released env cfg) c'.think_queue
              ≡ map (released env cfg) c.think_queue
                ++ released env cfg (grant_of env f.header) ∷ [])
            × (All IsIndexed c'.think_queue × KeepsOrder cfg c')))
unfolding receive track_latency
receive-released env cfg round f c port normal op other mem room order all h h' =
    let h0 = f.header in
    let latency = timediff_in_us cfg.tsc_hz env.now h0.payload in
    let (c1, (ran, (same, acts))) =
      sample_latency-HasRoom cfg latency (record c { latency = compute_latency latency c.latency })
        (record { interval = room.interval; room = room.room }) in
    let (c2, out, (ran', (owed, rest))) =
      receive_grant-released env cfg round h0.mode h0.op_type (ntohl h0.lock_id) (ntohl h0.txn_id)
        h0.client_id c1 other mem (λ z. same ∙ order z) (subst (All IsIndexed) (sym same) all) h
        h' in
    (
      c2,
      out,
      (
        rw
            (
              ne→== f.dst_port cfg.port_probe port,
              eq→== (c.failure_act first_client) 2 normal,
              ne→== h0.op_type 4 op,
              ran,
            )
            ran',
        (
          owed ∙ ap (λ q. map (released env cfg) q ++ released env cfg (grant_of env h0) ∷ []) same,
          rest,
        ),
      ),
    )

pub drain_round-parts :
    (env : Env) (cfg : Config) (cur_tsc : ℕ) (c : Client)
    → All IsIndexed c.think_queue
    → (c' : Client) × (out : List Packet) × ((drain_round env cfg cur_tsc c ≡ some (c', out))
        × ((out ++ map (released env cfg) c'.think_queue ≡ map (released env cfg) c.think_queue)
            × (All IsIndexed c'.think_queue × (KeepsOrder cfg c → KeepsOrder cfg c'))))
unfolding drain_round
drain_round-parts env cfg cur_tsc c all = elim (Bool-cases (is_tpcc cfg)) [
  | inl tpcc ↦ (c, [], (rw tpcc refl, (refl, (all, λ k. k))))
  | inr other ↦ elim (Bool-cases (cfg.think_time == 0)) [
    | inl at_once ↦ (c, [], (rw (other, at_once) refl, (refl, (all, λ k. k))))
    | inr later ↦
        let (c', out, (ran, (owed, all'))) = drain-released env cfg cur_tsc c all in
        (c', out, (rw (other, later) ran, (owed, (all', λ k z. ground (arith, z, later)))))
  ]
]

-- The drain at the start of a round, where the grants kept are within the arrays, loses and invents no release, and keeps their order.
pub drain_round-released :
    (env : Env) (cfg : Config) (cur_tsc : ℕ) (c : Client)
    → All IsIndexed c.think_queue
    → (c' : Client) × (out : List Packet) × ((drain_round env cfg cur_tsc c ≡ some (c', out))
        × (out ++ map (released env cfg) c'.think_queue ≡ map (released env cfg) c.think_queue))
drain_round-released env cfg cur_tsc c all =
    let (c', out, (ran, (owed, kept))) = drain_round-parts env cfg cur_tsc c all in
    (c', out, (ran, owed))
