-- ===== src/Client/Visit/Phases.antt =====
-- When the loop asks for the first lock of the next transaction.
use net_lock.Common.{
  ℕ, zero, suc, ◌∙◌, ap, drop, length, eq→==, write, ◌+◌, ◌%◌, ◌^◌, ◌<◌, ◌≤◌, ◌≡◌, ◌≢◌, ◌⊎◌, inl,
  inr, refl, List, [], ◌∷◌, ◌++◌, map, some, Bool, true, false, ◌==◌, ◌&&◌, ltb, arith, Bool-cases,
  ==→eq, ne→==, lt→ltb, write_self,
}
use net_lock.Wire.{Env, Packet, generate_write_request_pkt}
use net_lock.Client.{Txn, Config, Client, is_tpcc, add64, synchronous}
use net_lock.TxnQueue.{TxnQueueNode}
use net_lock.Client.Transaction.{Clock, Settled, settle, complete, give_up, idle, release_of}
use net_lock.Client.Transaction.Ledger.{IsSound, owed, to_release-owed}
use net_lock.Client.Visit.{
  Trace, Sender, Visited, send_request, hand_over, retry, go_on, resume, request, store_settled,
  advance,
}

-- The packet for the entry of the trace where the client is.
unfoldable pub next_request : Env → Trace → (cid lock_id : ℕ) → Sender → Packet
unfolding generate_write_request_pkt
next_request env w cid lock_id s =
    let i = s.idx cid in
    generate_write_request_pkt env (w.action_type cid i) (w.lock_type cid i) lock_id
      (w.txn_id cid i) 0 0 0 cid

-- The lock is asked for already, in the synchronous mode: the entry is passed over.
abbrev pub Skips : Config → (cid lock_id : ℕ) → Sender → Client → Visited → Type 0
Skips cfg cid lock_id s c v =
    ((cfg.data_transfer_mode ≡ synchronous) × (c.busy cid lock_id ≡ true))
    × (v ≡ (advance cid s, c, []))

-- The transaction before lacks a lock: the client stays where it is. Within the time-out nothing else
-- happens; behind it the locks that it holds are released, and it is given up.
abbrev pub Waits : Env → Config → Clock → ℕ → Sender → Txn → Visited → Type 0
Waits env cfg clock cid s t v =
    (t.txn_r < t.locks)
    × (v.0.idx ≡ s.idx)
    × (v.0.last_txn ≡ s.last_txn)
    × (((clock.cur_tsc ≤ (t.refresh_time + clock.expire_time s.expire_idx) % 2 ^ 64)
          × (v.2 ≡ [])
          × (v.1.txns cid s.last_txn ≡ t))
        ⊎ (((t.refresh_time + clock.expire_time s.expire_idx) % 2 ^ 64 < clock.cur_tsc)
            × (v.2 ≡ map (release_of env cfg s.last_txn cid) (owed t))
            × ((v.1.txns cid s.last_txn).deadlocked ≡ true)
            × (owed (v.1.txns cid s.last_txn) ≡ [])))

-- It has all its locks, but was given up: it releases them and begins again.
abbrev pub Retries : Env → Config → ℕ → Sender → Txn → Visited → Type 0
Retries env cfg cid s t v =
    (t.txn_r ≡ t.locks)
    × (t.deadlocked ≡ true)
    × (v.2 ≡ map (release_of env cfg s.last_txn cid) (owed t))
    × (v.0.idx cid ≡ s.last_txn_idx cid)

-- It has all its locks: it releases them and is counted, and then the next one asks.
abbrev pub Proceeds :
    Env → Config → Trace → (cid lock_id : ℕ) → Sender → Client → Txn → Visited → Type 0
Proceeds env cfg w cid lock_id s c t v =
    (t.txn_r ≡ t.locks)
    × (t.deadlocked ≡ false)
    × (v.2
        ≡ map (release_of env cfg s.last_txn cid) (owed t) ++ next_request env w cid lock_id s ∷ [])
    × (v.0.last_txn ≡ w.txn_id cid (s.idx cid))
    × (v.1.txn_count ≡ add64 c.txn_count 1)

both_true :
    (mode : ℕ) (b : Bool) → ((mode == synchronous) && b) ≡ true → (mode ≡ synchronous) × (b ≡ true)
both_true mode true h = (ground (arith, h), refl)
both_true mode false h = absurd (ground (arith, h))

ltb-lt : (a b : ℕ) → ltb a b ≡ true → a < b
ltb-lt a b h = ground (arith, h)

ltb-le : (a b : ℕ) → ltb a b ≡ false → b ≤ a
ltb-le a b h = ground (arith, h)

resume_over :
    (env : Env) (cfg : Config) (w : Trace) (clock : Clock) (cid lock_id txn : ℕ) (d : Bool)
    (out : List Packet) (s : Sender) (c : Client)
    → is_tpcc cfg ≡ true
    → let v = resume env cfg w clock cid lock_id txn false true d out s c in
      ((d ≡ true) × (v.2 ≡ out) × (v.0.idx cid ≡ s.last_txn_idx cid))
      ⊎ ((d ≡ false)
          × (v.2 ≡ out ++ next_request env w cid lock_id s ∷ [])
          × (v.0.last_txn ≡ w.txn_id cid (s.idx cid))
          × (v.1.txn_count ≡ add64 c.txn_count 1))
unfolding resume retry next_request send_request hand_over
resume_over env cfg w clock cid lock_id txn true out s c tpcc =
    inl (refl, refl, write_self s.idx cid (s.last_txn_idx cid))
resume_over env cfg w clock cid lock_id txn false out s c tpcc = inr (
  refl,
  refl,
  rw tpcc refl,
  elim (Bool-cases (cfg.data_transfer_mode == synchronous)) [
    | inl sync ↦ rw (tpcc, sync) refl
    | inr not_sync ↦ rw (tpcc, not_sync) refl
  ],
)

-- What `store_settled` stores of the transaction before.
stored :
    (cid : ℕ) (r : Settled) (last_txn : ℕ) (c : Client)
    → (store_settled cid r last_txn c).txns cid last_txn ≡ r.txn
unfolding write
stored cid r last_txn c = rw (eq→== cid cid refl, eq→== last_txn last_txn refl) refl

drop_all : (k : ℕ) (q : List TxnQueueNode) → k ≡ length q → drop k q ≡ []
drop_all zero [] h = refl
drop_all zero (n ∷ q) h = absurd (omega (arith, h))
drop_all (suc k) [] h = refl
drop_all (suc k) (n ∷ q) h = drop_all k q (omega (arith, h))

-- Where a TPC-C client in normal operation is at the first lock of another transaction than the one
-- before, and that one is sound and has got no more locks than it asked for: in the synchronous mode
-- the entry is passed over if its lock is asked for already. Else the loop waits while a lock is
-- missing, and behind the time-out it releases the others and gives the transaction before up; once
-- all its locks have come, that one is released, and begins again if it was given up, or else is
-- counted, and the lock is asked for.
pub request-next :
    (env : Env) (cfg : Config) (w : Trace) (clock : Clock) (cid lock_id : ℕ) (s : Sender)
    (c : Client)
    → is_tpcc cfg ≡ true
    → w.txn_id cid (s.idx cid) ≢ s.last_txn
    → IsSound (c.txns cid s.last_txn)
    → (c.txns cid s.last_txn).txn_r ≤ (c.txns cid s.last_txn).locks
    → let t = c.txns cid s.last_txn in
      (v : Visited) × (request env cfg w clock cid lock_id (w.txn_id cid (s.idx cid)) s c ≡ some v)
      × (Skips cfg cid lock_id s c v
          ⊎ (Waits env cfg clock cid s t v
              ⊎ (Retries env cfg cid s t v ⊎ Proceeds env cfg w cid lock_id s c t v)))
unfolding request settle complete give_up go_on next_request resume
request-next env cfg w clock cid lock_id s c tpcc other sound le =
    let t = c.txns cid s.last_txn in
    let txn = w.txn_id cid (s.idx cid) in
    let found = to_release-owed t sound in
    let differs = ne→== txn s.last_txn other in
    elim (Bool-cases ((cfg.data_transfer_mode == synchronous) && c.busy cid lock_id)) [
      | inl skip ↦ (
        (advance cid s, c, []),
        rw skip refl,
        inl (both_true cfg.data_transfer_mode (c.busy cid lock_id) skip, refl),
      )
      | inr free ↦ elim (Bool-cases (t.txn_r == t.locks)) [
        | inl full ↦
            let r = complete env cfg s.last_txn cid s.expire_idx t (owed t) in
            (
              go_on env cfg w clock cid lock_id txn s c r,
              rw (free, tpcc, differs, full, found) refl,
              elim (resume_over env cfg w clock cid lock_id txn t.deadlocked r.out
                  (record s { expire_idx = s.expire_idx }) (store_settled cid r s.last_txn c)
                  tpcc) [
                    | inl (dead, sent, back) ↦
                        inr (inr (inl (==→eq t.txn_r t.locks full, dead, sent, back)))
                    | inr (alive, sent, next, count) ↦
                        inr (inr (inr (==→eq t.txn_r t.locks full, alive, sent, next, count)))
                  ],
            )
        | inr not_full ↦
            let less : t.txn_r < t.locks = ground (arith, le, not_full) in
            let lessb = lt→ltb t.txn_r t.locks less in
            let limit = (t.refresh_time + clock.expire_time s.expire_idx) % 2 ^ 64 in
            elim (Bool-cases (ltb limit clock.cur_tsc)) [
              | inr early ↦ (
                go_on env cfg w clock cid lock_id txn s c (idle s.expire_idx true t),
                rw (free, tpcc, differs, not_full, lessb, early) refl,
                inr (
                    inl (
                      less,
                      refl,
                      refl,
                      inl (
                        ltb-le limit clock.cur_tsc early,
                        refl,
                        stored cid (idle s.expire_idx true t) s.last_txn c,
                      ),
                    )),
              )
              | inl late ↦
                  let r = give_up env cfg clock s.last_txn cid t (owed t) in
                  let is = stored cid r s.last_txn c in
                  (
                    go_on env cfg w clock cid lock_id txn s c r,
                    rw (free, tpcc, differs, not_full, lessb, late, found) refl,
                    inr (
                        inl (
                          less,
                          refl,
                          refl,
                          inr (
                            ltb-lt limit clock.cur_tsc late,
                            refl,
                            ap (λ (u : Txn). u.deadlocked) is,
                            ap owed is ∙ drop_all t.txn_r t.queue sound.counted,
                          ),
                        )),
                  )
            ]
      ]
    ]
