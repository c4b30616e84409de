-- ===== src/Client/Visit/Sound.antt =====
-- The loop never follows a null pointer: it keeps every transaction sound.
use net_lock.Common.{
  ℕ, ◌≡◌, inl, inr, refl, sym, ap, ◌∙◌, List, [], Option, none, some, Bool, true, false, ◌==◌, ◌&&◌,
  if◌then◌else◌, length, arith, Bool-cases, branches, write,
}
use net_lock.Wire.{Env, Packet, acquire_lock}
use net_lock.Client.{Txn, Config, Client, is_tpcc, failure_rollback, failure_stop, synchronous}
use net_lock.Client.Transaction.{Clock, Settled, settle}
use net_lock.Client.Transaction.Ledger.{IsSound, settle-owed}
use net_lock.Client.Visit.{
  Trace, Sender, Visited, set_txn, restarted, started, stand_still, send_request, hand_over, retry,
  go_on, visit, request, advance, resume, store_settled, wrapped, lock_id_of,
}

abbrev pub AllSound : Client → Type 0
AllSound c = (i j : ℕ) → IsSound (c.txns i j)

-- The parts of a transaction that soundness reads.
same_parts :
    (t u : Txn) → u.queue ≡ t.queue → u.txn_s ≡ t.txn_s → u.txn_r ≡ t.txn_r → IsSound t → IsSound u
same_parts t u q s r sound = record {
  counted = r ∙ (sound.counted ∙ ap length (sym q));
  below = omega (arith, s, r, sound.below);
}

set_txn-AllSound :
    (cid txn_id : ℕ) (t : Txn) (c : Client)
    → AllSound c
    → IsSound t
    → AllSound (set_txn cid txn_id t c)
unfolding write
set_txn-AllSound cid txn_id t c all s i j = elim (Bool-cases (i == cid)) [
  | inr other ↦ rw other (all i j)
  | inl this ↦ elim (Bool-cases (j == txn_id)) [
    | inr other ↦ rw (this, other) (all cid j)
    | inl that ↦ rw (this, that) s
  ]
]

restarted-IsSound : (cur_tsc : ℕ) (t : Txn) → IsSound (restarted cur_tsc t)
restarted-IsSound cur_tsc t = record { counted = refl; below = omega arith }

started-IsSound : (clock : Clock) (t : Txn) → IsSound t → IsSound (started clock t)
started-IsSound clock t s = record { counted = s.counted; below = omega arith }

stand_still-AllSound :
    (clock : Clock) (cid : ℕ) (s : Sender) (c : Client)
    → AllSound c
    → AllSound (stand_still clock cid s c).1
unfolding stand_still
stand_still-AllSound clock cid s c all =
    set_txn-AllSound cid s.last_txn (restarted clock.cur_tsc (c.txns cid s.last_txn)) c all
      (restarted-IsSound clock.cur_tsc (c.txns cid s.last_txn))

send_request-AllSound :
    (env : Env) (cfg : Config) (w : Trace) (clock : Clock) (cid lock_id : ℕ) (s : Sender)
    (c : Client)
    → AllSound c
    → AllSound (send_request env cfg w clock cid lock_id s c).1
unfolding send_request
send_request-AllSound env cfg w clock cid lock_id s c all =
    let txn = w.txn_id cid (s.idx cid) in
    elim (Bool-cases (is_tpcc cfg)) [
      | inr other ↦ elim (Bool-cases (cfg.data_transfer_mode == synchronous)) [
        | inl sync ↦ rw (other, sync) all
        | inr not_sync ↦ rw (other, not_sync) all
      ]
      | inl tpcc ↦
          let all' =
            set_txn-AllSound cid txn (started clock (c.txns cid txn)) c all
              (started-IsSound clock (c.txns cid txn) (all cid txn)) in
          elim (Bool-cases (cfg.data_transfer_mode == synchronous)) [
            | inl sync ↦ rw (tpcc, sync) all'
            | inr not_sync ↦ rw (tpcc, not_sync) all'
          ]
    ]

hand_over-AllSound :
    (clock : Clock) (cid txn : ℕ) (s : Sender) (c : Client)
    → AllSound c
    → AllSound (hand_over clock cid txn s c).1
unfolding hand_over
hand_over-AllSound clock cid txn s c all =
    let old : Txn = record (c.txns cid s.last_txn) {
      finish_time = clock.finish_now;
      deadlocked = false;
    } in
    let c1 = set_txn cid s.last_txn old c in
    let all1 : AllSound c1 =
      set_txn-AllSound cid s.last_txn old c all
        (same_parts (c.txns cid s.last_txn) old refl refl refl (all cid s.last_txn)) in
    set_txn-AllSound cid txn _ c1 all1
      (same_parts (c1.txns cid txn) _ refl refl refl (all1 cid txn))

retry-AllSound :
    (cid txn : ℕ) (s : Sender) (c : Client) → AllSound c → AllSound (retry cid txn s c).1
unfolding retry
retry-AllSound cid txn s c all =
    let old : Txn = record (c.txns cid s.last_txn) { deadlocked = false; finish_time = 0 } in
    let c1 = set_txn cid s.last_txn old c in
    let all1 : AllSound c1 =
      set_txn-AllSound cid s.last_txn old c all
        (same_parts (c.txns cid s.last_txn) old refl refl refl (all cid s.last_txn)) in
    set_txn-AllSound cid txn _ c1 all1
      (same_parts (c1.txns cid txn) _ refl refl refl (all1 cid txn))

resume-AllSound :
    (env : Env) (cfg : Config) (w : Trace) (clock : Clock) (cid lock_id txn : ℕ)
    (waits finished deadlocked : Bool) (out : List Packet) (s : Sender) (c : Client)
    → AllSound c
    → AllSound (resume env cfg w clock cid lock_id txn waits finished deadlocked out s c).1
unfolding resume
resume-AllSound env cfg w clock cid lock_id txn true finished deadlocked out s c all = all
resume-AllSound env cfg w clock cid lock_id txn false false deadlocked out s c all =
    send_request-AllSound env cfg w clock cid lock_id s c all
resume-AllSound env cfg w clock cid lock_id txn false true true out s c all =
    retry-AllSound cid txn s c all
resume-AllSound env cfg w clock cid lock_id txn false true false out s c all =
    send_request-AllSound env cfg w clock cid lock_id (hand_over clock cid txn s c).0
      (hand_over clock cid txn s c).1 (hand_over-AllSound clock cid txn s c all)

go_on-AllSound :
    (env : Env) (cfg : Config) (w : Trace) (clock : Clock) (cid lock_id txn : ℕ) (s : Sender)
    (c : Client) (r : Settled)
    → AllSound c
    → IsSound r.txn
    → AllSound (go_on env cfg w clock cid lock_id txn s c r).1
unfolding go_on
go_on-AllSound env cfg w clock cid lock_id txn s c r all sound =
    resume-AllSound env cfg w clock cid lock_id txn r.waits r.txn.finished r.txn.deadlocked r.out
      (record s { expire_idx = r.expire_idx }) (store_settled cid r s.last_txn c)
      (set_txn-AllSound cid s.last_txn r.txn c all sound)

-- A result without a fault, and sound.
abbrev pub EndsSound : Option Visited → Type 0
EndsSound o = (v : Visited) × ((o ≡ some v) × AllSound v.1)

settled-EndsSound :
    (env : Env) (cfg : Config) (w : Trace) (clock : Clock) (cid lock_id txn : ℕ) (s : Sender)
    (c : Client)
    → AllSound c
    → EndsSound (elim (settle env cfg clock s.last_txn cid s.expire_idx (c.txns cid s.last_txn)) [
      | none ↦ none
      | some r ↦ some (go_on env cfg w clock cid lock_id txn s c r)
    ])
settled-EndsSound env cfg w clock cid lock_id txn s c all =
    let (r, (ran, (sound, kept))) =
      settle-owed env cfg clock s.last_txn cid s.expire_idx (c.txns cid s.last_txn)
        (all cid s.last_txn) in
    (
      go_on env cfg w clock cid lock_id txn s c r,
      (rw ran refl, go_on-AllSound env cfg w clock cid lock_id txn s c r all sound),
    )

request-EndsSound :
    (env : Env) (cfg : Config) (w : Trace) (clock : Clock) (cid lock_id txn : ℕ) (s : Sender)
    (c : Client)
    → AllSound c
    → EndsSound (request env cfg w clock cid lock_id txn s c)
unfolding request
request-EndsSound env cfg w clock cid lock_id txn s c all =
    branches EndsSound ((cfg.data_transfer_mode == synchronous) && c.busy cid lock_id)
      ((advance cid s, c, []), (refl, all))
      (branches EndsSound (is_tpcc cfg && (if txn == s.last_txn then false else true))
        (settled-EndsSound env cfg w clock cid lock_id txn s c all)
        (
          send_request env cfg w clock cid lock_id s c,
          (refl, send_request-AllSound env cfg w clock cid lock_id s c all),
        ))

-- Whatever a round does for a client whose transactions are all sound, it follows no null pointer,
-- and they are all sound afterwards.
pub visit-AllSound :
    (env : Env) (cfg : Config) (w : Trace) (clock : Clock) (cid : ℕ) (s : Sender) (c : Client)
    → AllSound c
    → EndsSound (visit env cfg w clock cid s c)
unfolding visit
visit-AllSound env cfg w clock cid s0 c all =
    let s = wrapped w cid s0 in
    let i = s.idx cid in
    let stands : EndsSound (some (stand_still clock cid s0 c)) =
      (stand_still clock cid s0 c, (refl, stand_still-AllSound clock cid s0 c all)) in
    branches EndsSound (c.failure_act cid == failure_rollback) stands (
      branches EndsSound (c.failure_act cid == failure_stop) stands (
        branches EndsSound (w.action_type cid i == acquire_lock)
          (request-EndsSound env cfg w clock cid (lock_id_of w (w.target_obj_idx cid i))
            (w.txn_id cid i) s c all)
          ((advance cid s, c, []), (refl, all))))
