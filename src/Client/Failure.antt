-- ===== src/Client/Failure.antt =====
-- A client's core from the probe that tells of the switch's failure to the one that tells of its end.
use net_lock.Common.{
  ℕ, ◌<◌, ◌≤◌, ◌≡◌, ◌≢◌, inl, inr, Bool-cases, ◌==◌, false, refl, [], some, true, leb, ltb,
  if◌then◌else◌, arith, lt→ltb, write, write_self, ne→==,
}
use net_lock.Wire.{Env}
use net_lock.Client.{Config, Client, failure_rollback, failure_normal, max_client_num}
use net_lock.Client.Transaction.{Clock}
use net_lock.Client.Receive.{Frame, Round, receive, receive_probe}
use net_lock.Client.Visit.{Trace, Sender, Visited, visit, stand_still, restarted}

leb_of_le : (a b : ℕ) → a ≤ b → leb a b ≡ true
leb_of_le a b h = ground arith

-- With at most 8 clients: a probe of the failure makes the next round of each client send nothing, go
-- back to where its transaction began and forget its grants; replies that come before the probe of the
-- recovery change nothing; and that probe lets the client send again.
pub receive_probe-visit :
    (env : Env) (cfg : Config) (w : Trace) (clock : Clock) (round : Round) (f : Frame) (s : Sender)
    (c : Client) (cid : ℕ)
    → cfg.client_num ≤ max_client_num
    → cid < cfg.client_num
    → c.last_failure_status ≡ 0
    → f.dst_port ≢ cfg.port_probe
    → (c1 : Client) × (v : Visited) × (c2 : Client) × (receive_probe cfg 1 c ≡ some c1)
      × (visit env cfg w clock cid s c1 ≡ some v)
      × (v.2 ≡ [])
      × (v.0.idx cid ≡ s.last_txn_idx cid)
      × ((v.1.txns cid s.last_txn).queue ≡ [])
      × (receive env cfg round f v.1 ≡ some (v.1, []))
      × (receive_probe cfg 0 v.1 ≡ some c2)
      × (c2.failure_act cid ≡ failure_normal)
unfolding receive_probe visit stand_still receive
receive_probe-visit env cfg w clock round f s c cid few this normal port =
    let fits = leb_of_le cfg.client_num 8 few in
    let hit = lt→ltb cid cfg.client_num this in
    let acts : ℕ → ℕ = λ j. if ltb j cfg.client_num then failure_rollback else c.failure_act j in
    let c1 : Client = record c { failure_act = acts; last_failure_status = 1 } in
    let v = stand_still clock cid s c1 in
    let some_client : ltb 0 cfg.client_num ≡ true = ground (arith, this) in
    let silent : (v.1.failure_act 0 == failure_normal) ≡ false = elim (Bool-cases (0 == cid)) [
      | inl own ↦ rw (hit, own) refl
      | inr other ↦ rw (hit, other, some_client) refl
    ] in
    let acts2 : ℕ → ℕ = λ j. if ltb j cfg.client_num then failure_normal else v.1.failure_act j in
    let c2 : Client = record v.1 { failure_act = acts2; last_failure_status = 0 } in
    (
      c1,
      v,
      c2,
      rw (normal, fits) refl,
      rw hit refl,
      refl,
      write_self s.idx cid (s.last_txn_idx cid),
      rw
          (
            write_self c.txns cid
                (write (c.txns cid) s.last_txn (restarted clock.cur_tsc (c.txns cid s.last_txn))),
            write_self (c.txns cid) s.last_txn (restarted clock.cur_tsc (c.txns cid s.last_txn)),
          )
          refl,
      rw (ne→== f.dst_port cfg.port_probe port, silent) refl,
      rw fits refl,
      rw hit refl,
    )
