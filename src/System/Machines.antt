-- ===== src/System/Machines.antt =====
-- What a client sends outside TPC-C, by the tags of its packets.
use net_lock.Common.{
  ℕ, ◌%◌, ◌<◌, ◌≤◌, ◌≡◌, ◌≢◌, inl, inr, refl, sym, ap, subst, ◌∙◌, List, [], ◌∷◌, ◌++◌, map, Option,
  some, true, false, ◌==◌, ◌&&◌, if◌then◌else◌, All, All-append, All-parts, Bool-cases, branches,
  arith, eq-of_some, ==→eq, map-append,
}
use net_lock.Wire.{
  Env, Packet, ntohl, acquire_lock, generate_write_request_pkt, reject_lock_acquire,
}
use net_lock.Wire.ByteOrder.{ntohl-htonl, htonl-ntohl, htonl-lt}
use net_lock.ThinkQueue.{ThinkQueueNode}
use net_lock.Client.{
  Config, Client, is_tpcc, failure_rollback, failure_stop, failure_normal, synchronous,
  max_client_num, max_lock_num,
}
use net_lock.Client.Transaction.{Clock}
use net_lock.Client.Receive.{first_client, Frame, Round, receive, drain_round}
use net_lock.Client.Receive.Drains.{IsIndexed, released}
use net_lock.Client.Receive.Answers.{
  HasRoom, KeepsOrder, grant_of, receive-released, drain_round-parts,
}
use net_lock.Client.Visit.{
  Trace, Sender, Visited, visit, request, send_request, stand_still, wrapped, advance, lock_id_of,
}
use net_lock.System.{IsPlain}
use net_lock.System.Tags.{Tag, tag, kept_tag, tags-released, IsFine}

-- A request of the protocol.
abbrev pub IsRequest : Packet → Type 0
IsRequest p = IsFine (tag p) × ((tag p).op ≡ acquire_lock)

-- A round that leaves the think queue as it was and sends only requests.
abbrev pub Asks : Client → Visited → Type 0
Asks c v = (v.1.think_queue ≡ c.think_queue) × All IsRequest v.2

abbrev pub MayAsk : Client → Option Visited → Type 0
MayAsk c o = (v : Visited) → o ≡ some v → Asks c v

some-MayAsk : (c : Client) (v : Visited) → Asks c v → MayAsk c (some v)
some-MayAsk c v asks u e = subst (Asks c) (eq-of_some e) asks

send_request-Asks :
    (env : Env) (cfg : Config) (w : Trace) (clock : Clock) (cid lock_id : ℕ) (s : Sender)
    (c : Client)
    → is_tpcc cfg ≡ false
    → w.action_type cid (s.idx cid) ≡ acquire_lock
    → w.lock_type cid (s.idx cid) ≤ 1
    → cid < max_client_num
    → lock_id < max_lock_num
    → Asks c (send_request env cfg w clock cid lock_id s c)
unfolding send_request tag generate_write_request_pkt
send_request-Asks env cfg w clock cid lock_id s c other action mode who lock = (
  rw other (
      branches (λ (d : Client). d.think_queue ≡ c.think_queue)
        (cfg.data_transfer_mode == synchronous) refl refl),
  (
    (
      (
        omega (arith, mode),
        omega (arith, who),
        subst (λ n. n < max_lock_num) (sym (ntohl-htonl lock_id (omega (arith, lock)))) lock,
        htonl-lt (w.txn_id cid (s.idx cid)),
      ),
      omega (arith, action),
    ),
    tt,
  ),
)

request-MayAsk :
    (env : Env) (cfg : Config) (w : Trace) (clock : Clock) (cid lock_id txn : ℕ) (s : Sender)
    (c : Client)
    → is_tpcc cfg ≡ false
    → w.action_type cid (s.idx cid) ≡ acquire_lock
    → w.lock_type cid (s.idx cid) ≤ 1
    → cid < max_client_num
    → lock_id < max_lock_num
    → MayAsk c (request env cfg w clock cid lock_id txn s c)
unfolding request
request-MayAsk env cfg w clock cid lock_id txn s c other action mode who lock =
    let goes_on : (is_tpcc cfg && (if txn == s.last_txn then false else true)) ≡ false =
      rw other refl in
    rw goes_on (
      branches (MayAsk c) ((cfg.data_transfer_mode == synchronous) && c.busy cid lock_id)
        (some-MayAsk c (advance cid s, c, []) (refl, tt))
        (some-MayAsk c (send_request env cfg w clock cid lock_id s c)
          (send_request-Asks env cfg w clock cid lock_id s c other action mode who lock)))

pub visit-Asks :
    (env : Env) (cfg : Config) (w : Trace) (clock : Clock) (cid : ℕ) (s : Sender) (c : Client)
    (v : Visited)
    → is_tpcc cfg ≡ false
    → IsPlain w
    → cid < max_client_num
    → visit env cfg w clock cid s c ≡ some v
    → Asks c v
unfolding visit stand_still
visit-Asks env cfg w clock cid s0 c v other plain who =
    let s = wrapped w cid s0 in
    let i = s.idx cid in
    let stands = some-MayAsk c (stand_still clock cid s0 c) (refl, tt) in
    branches (MayAsk c) (c.failure_act cid == failure_rollback) stands
      (branches (MayAsk c) (c.failure_act cid == failure_stop) stands
        (elim (Bool-cases (w.action_type cid i == acquire_lock)) [
          | inl asks ↦ rw asks (
              request-MayAsk env cfg w clock cid (lock_id_of w (w.target_obj_idx cid i))
                (w.txn_id cid i) s c other (==→eq _ _ asks) (plain.mode cid i) who
                (plain.lock cid i))
          | inr passes ↦ rw passes (some-MayAsk c (advance cid s, c, []) (refl, tt))
        ]))
      v

-- A release of the protocol.
abbrev pub IsRelease : Tag → Type 0
IsRelease t = IsFine t × (t.op ≡ 1)

-- A client outside TPC-C that may keep grants, each of which can be released.
pub record IsReady (cfg : Config) (c : Client) : Type 0 where
  pub order : KeepsOrder cfg c
  pub indexed : All IsIndexed c.think_queue
  pub owed : All IsRelease (map kept_tag c.think_queue)

pub visit-IsReady :
    (cfg : Config) (c d : Client) → d.think_queue ≡ c.think_queue → IsReady cfg c → IsReady cfg d
visit-IsReady cfg c d same r = record {
  order = λ z. same ∙ r.order z;
  indexed = subst (All IsIndexed) (sym same) r.indexed;
  owed = subst (λ q. All IsRelease (map kept_tag q)) (sym same) r.owed;
}

-- The equation of the releases, on their tags.
tags-owed :
    (env : Env) (cfg : Config) (out : List Packet) (q r : List ThinkQueueNode)
    → out ++ map (released env cfg) q ≡ map (released env cfg) r
    → map tag out ++ map kept_tag q ≡ map kept_tag r
tags-owed env cfg out q r e =
    ap (λ ts. map tag out ++ ts) (sym (tags-released env cfg q))
    ∙ (sym (map-append tag out (map (released env cfg) q))
        ∙ (ap (map tag) e ∙ tags-released env cfg r))

-- The tag of the release that a grant is owed at once.
abbrev pub answer_tag : Packet → Tag
answer_tag p = record (tag p) { op = 1 }

-- The tag of the release that a grant is owed, if it is kept.
pub kept-answer :
    (env : Env) (p : Packet) → IsFine (tag p) → kept_tag (grant_of env p.header) ≡ answer_tag p
unfolding tag
kept-answer env p (mode, who, lock, txn) =
    let m : p.header.mode % 256 ≡ p.header.mode = omega (arith, mode) in
    let c : p.header.client_id % 256 ≡ p.header.client_id = omega (arith, who) in
    let l = ntohl-htonl (ntohl p.header.lock_id) (omega (arith, lock)) in
    rw (m, c, l, htonl-ntohl p.header.txn_id txn) refl

-- A reply is answered, and the client stays ready.
abbrev pub Answers : Config → Packet → Client → Client × List Packet → Type 0
Answers cfg p c r =
    (map tag r.1 ++ map kept_tag r.0.think_queue ≡ map kept_tag c.think_queue ++ answer_tag p ∷ [])
    × (All IsRelease (map tag r.1) × IsReady cfg r.0)

pub receive-Answers :
    (env : Env) (cfg : Config) (round : Round) (f : Frame) (p : Packet) (c : Client)
    (r : Client × List Packet)
    → is_tpcc cfg ≡ false
    → f.header ≡ p.header
    → IsFine (tag p)
    → (tag p).op ≡ 3
    → f.dst_port ≢ cfg.port_probe
    → c.failure_act first_client ≡ failure_normal
    → round.has_memory ≡ true
    → HasRoom cfg c
    → IsReady cfg c
    → receive env cfg round f c ≡ some r
    → Answers cfg p c r
unfolding tag
receive-Answers env cfg round f p c r other same fine op port normal memory room ready ran =
    let h_op : f.header.op_type ≢ reject_lock_acquire = rw same (λ h. omega (arith, op, h)) in
    let h_who : f.header.client_id < max_client_num = rw same fine.1 in
    let h_lock : ntohl f.header.lock_id < max_lock_num = rw same fine.2 in
    let (c1, out1, (ran1, (owed1, (indexed1, order1)))) =
      receive-released env cfg round f c port normal h_op other memory room ready.order
        ready.indexed h_who h_lock in
    let g = grant_of env f.header in
    let whole : out1 ++ map (released env cfg) c1.think_queue
        ≡ map (released env cfg) (c.think_queue ++ g ∷ []) =
      owed1 ∙ sym (map-append (released env cfg) c.think_queue (g ∷ [])) in
    let tagged = tags-owed env cfg out1 c1.think_queue (c.think_queue ++ g ∷ []) whole in
    let e : map tag out1 ++ map kept_tag c1.think_queue
        ≡ map kept_tag c.think_queue ++ answer_tag p ∷ [] =
      tagged
      ∙ (map-append kept_tag c.think_queue (g ∷ [])
          ∙ ap (λ t. map kept_tag c.think_queue ++ t ∷ []) (rw same (kept-answer env p fine))) in
    let releases = All-parts IsRelease (map tag out1) (map kept_tag c1.think_queue) (
      subst (All IsRelease) (sym e) (
        All-append IsRelease (map kept_tag c.think_queue) (answer_tag p ∷ []) ready.owed
          ((fine, refl), tt))) in
    subst (Answers cfg p c) (eq-of_some (sym ran1 ∙ ran))
      (e, (releases.0, record { order = order1; indexed = indexed1; owed = releases.1 }))

-- A drain releases what it takes from the think queue.
abbrev pub Drains : Config → Client → Client × List Packet → Type 0
Drains cfg c r =
    (map tag r.1 ++ map kept_tag r.0.think_queue ≡ map kept_tag c.think_queue)
    × (All IsRelease (map tag r.1) × IsReady cfg r.0)

pub drain_round-Drains :
    (env : Env) (cfg : Config) (cur_tsc : ℕ) (c : Client) (r : Client × List Packet)
    → IsReady cfg c
    → drain_round env cfg cur_tsc c ≡ some r
    → Drains cfg c r
drain_round-Drains env cfg cur_tsc c r ready ran =
    let (c1, out1, (ran1, (owed1, (indexed1, order1)))) =
      drain_round-parts env cfg cur_tsc c ready.indexed in
    let e = tags-owed env cfg out1 c1.think_queue c.think_queue owed1 in
    let releases =
      All-parts IsRelease (map tag out1) (map kept_tag c1.think_queue)
        (subst (All IsRelease) (sym e) ready.owed) in
    subst (Drains cfg c) (eq-of_some (sym ran1 ∙ ran)) (
      e,
      (releases.0, record { order = order1 ready.order; indexed = indexed1; owed = releases.1 }),
    )
