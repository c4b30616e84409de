-- ===== src/Client/Transaction/Ledger.antt =====
-- Every lock that a transaction was granted is released once, in the order of the grants.
use net_lock.Common.{
  ℕ, zero, suc, ◌+◌, ◌-◌, ◌%◌, ◌^◌, ◌≤◌, ◌<◌, ◌≡◌, ◌⊎◌, inl, inr, refl, sym, ap, ◌∙◌, subst, List,
  [], ◌∷◌, ◌++◌, map, Option, none, some, Bool, true, false, eq→==, lt→ltb, ◌==◌, ltb, length, drop,
  arith, append-nil, append_assoc, map-append, Bool-cases, length-append, length-drop,
}
use net_lock.Wire.{Env, Packet}
use net_lock.TxnQueue.{TxnQueueNode}
use net_lock.Client.{Txn, Config}
use net_lock.Client.Receive.{granted}
use net_lock.Client.Transaction.{
  Clock, Settled, idle, skip_loop, visit_loop, to_release, release_of, settle, complete, give_up,
}

-- `txn_r` counts the list, and no more is released than was granted.
pub record IsSound (t : Txn) : Type 0 where
  pub counted : t.txn_r ≡ length t.queue
  pub below : t.txn_s ≤ t.txn_r

-- The granted locks that are not released yet.
abbrev pub owed : Txn → List TxnQueueNode
owed t = drop t.txn_s t.queue

skip_loop-drop : (k : ℕ) (q : List TxnQueueNode) → k ≤ length q → skip_loop k q ≡ some (drop k q)
unfolding skip_loop
skip_loop-drop zero q h = refl
skip_loop-drop (suc k) [] h = ground arith
skip_loop-drop (suc k) (n ∷ q) h = skip_loop-drop k q (omega (arith, h))

visit_loop_whole : (q : List TxnQueueNode) → visit_loop (length q) q ≡ some q
unfolding visit_loop
visit_loop_whole [] = refl
visit_loop_whole (n ∷ q) = rw (visit_loop_whole q) refl

pub to_release-owed : (t : Txn) → IsSound t → to_release t ≡ some (owed t)
unfolding to_release
to_release-owed t s =
    let rounds : t.txn_r - t.txn_s ≡ length (drop t.txn_s t.queue) =
      ap (λ r. r - t.txn_s) s.counted ∙ sym (length-drop t.txn_s t.queue) in
    rw
      (
        to_release,
        skip_loop-drop t.txn_s t.queue (subst (λ r. t.txn_s ≤ r) s.counted s.below),
        rounds,
      )
      (visit_loop_whole (drop t.txn_s t.queue))

drop_whole : (q : List TxnQueueNode) → drop (length q) q ≡ []
drop_whole [] = refl
drop_whole (n ∷ q) = drop_whole q

-- What a look at a transaction leaves owed and sends is what was owed.
pub settle-owed :
    (env : Env) (cfg : Config) (clock : Clock) (txn_id cid expire_idx : ℕ) (t : Txn)
    → IsSound t
    → (r : Settled) × ((settle env cfg clock txn_id cid expire_idx t ≡ some r)
        × (IsSound r.txn
            × (r.out ++ map (release_of env cfg txn_id cid) (owed r.txn)
                ≡ map (release_of env cfg txn_id cid) (owed t))))
unfolding settle complete give_up
settle-owed env cfg clock txn_id cid e t s =
    let found = to_release-owed t s in
    let none_left : drop t.txn_r t.queue ≡ [] =
      subst (λ r. drop r t.queue ≡ []) (sym s.counted) (drop_whole t.queue) in
    elim (Bool-cases (t.txn_r == t.locks)) [
      | inl full ↦ (
        complete env cfg txn_id cid e t (owed t),
        (rw (full, found) refl, (record { counted = refl; below = omega arith }, append-nil _)),
      )
      | inr not_full ↦ elim (Bool-cases (ltb t.txn_r t.locks)) [
        | inr more ↦ (idle e false t, (rw (not_full, more) refl, (s, refl)))
        | inl less ↦
            elim (Bool-cases
              (ltb ((t.refresh_time + clock.expire_time e) % 2 ^ 64) clock.cur_tsc)) [
                | inr early ↦ (idle e true t, (rw (not_full, less, early) refl, (s, refl)))
                | inl late ↦ (
                  give_up env cfg clock txn_id cid t (owed t),
                  (
                    rw (not_full, less, late, found) refl,
                    (
                      record { counted = s.counted; below = omega arith },
                      rw none_left (append-nil (map (release_of env cfg txn_id cid) (owed t))),
                    ),
                  ),
                )
              ]
      ]
    ]

-- What happens to a transaction: grants come, which find memory or not, and the loop looks at it.
pub data Event : Type 0 where
  grant : (has_memory : Bool) (mode opt lock_id : ℕ) → Event
  look : Clock → (expire_idx : ℕ) → Event

abbrev pub node_of : (mode opt lock_id : ℕ) → TxnQueueNode
node_of mode opt lock_id = record { mode = mode; op_type = opt; lock_id = lock_id }

abbrev pub grants : List Event → List TxnQueueNode
grants [] = []
grants (grant b mode opt lock_id ∷ es) = node_of mode opt lock_id ∷ grants es
grants (look clock e ∷ es) = grants es

-- Every grant finds memory.
abbrev pub AllNoted : List Event → Type 0
AllNoted [] = Unit
AllNoted (grant has_memory mode opt lock_id ∷ es) = (has_memory ≡ true) × AllNoted es
AllNoted (look clock e ∷ es) = AllNoted es

abbrev pub sends : List Packet → Option (Txn × List Packet) → Option (Txn × List Packet)
sends ps none = none
sends ps (some (t, out)) = some (t, ps ++ out)

unfoldable pub run : Env → Config → (txn_id cid : ℕ) → List Event → Txn → Option (Txn × List Packet)
unfolding settle
run env cfg txn_id cid [] t = some (t, [])
run env cfg txn_id cid (grant has_memory mode opt lock_id ∷ es) t =
    run env cfg txn_id cid es (granted has_memory mode opt lock_id t)
run env cfg txn_id cid (look clock e ∷ es) t = elim (settle env cfg clock txn_id cid e t) [
  | none ↦ none
  | some r ↦ sends r.out (run env cfg txn_id cid es r.txn)
]

drop-append_below :
    (k : ℕ) (q : List TxnQueueNode) (n : TxnQueueNode)
    → k ≤ length q
    → drop k (q ++ n ∷ []) ≡ drop k q ++ n ∷ []
drop-append_below zero q n h = refl
drop-append_below (suc k) [] n h = ground arith
drop-append_below (suc k) (m ∷ q) n h = drop-append_below k q n (omega (arith, h))

granted-owed :
    (mode opt lock_id : ℕ) (t : Txn)
    → IsSound t
    → IsSound (granted true mode opt lock_id t)
      × (owed (granted true mode opt lock_id t) ≡ owed t ++ node_of mode opt lock_id ∷ [])
granted-owed mode opt lock_id t s =
    let n = node_of mode opt lock_id in
    (
      record {
        counted = omega (arith, length-append t.queue (n ∷ []), s.counted);
        below = omega (arith, s.below);
      },
      drop-append_below t.txn_s t.queue n (omega (arith, s.below, s.counted)),
    )

-- However the grants of a transaction and the looks at it mix, from a sound one, where every grant finds
-- memory: no look follows a null pointer, and the releases sent, followed by those still owed, are
-- one release for each lock that was owed at the start or granted since, in the order of the grants.
pub run-owed :
    (env : Env) (cfg : Config) (txn_id cid : ℕ) (es : List Event) (t : Txn)
    → IsSound t
    → AllNoted es
    → (t' : Txn) × (out : List Packet) × ((run env cfg txn_id cid es t ≡ some (t', out))
        × (IsSound t'
            × (out ++ map (release_of env cfg txn_id cid) (owed t')
                ≡ map (release_of env cfg txn_id cid) (owed t ++ grants es))))
unfolding run
run-owed env cfg txn_id cid [] t s noted =
    (t, [], (refl, (s, sym (ap (map (release_of env cfg txn_id cid)) (append-nil (owed t))))))
run-owed env cfg txn_id cid (grant b mode opt lock_id ∷ es) t s noted =
    let memory : run env cfg txn_id cid (grant b mode opt lock_id ∷ es) t
        ≡ run env cfg txn_id cid es (granted true mode opt lock_id t) =
      ap (λ b'. run env cfg txn_id cid es (granted b' mode opt lock_id t)) noted.0 in
    let (s', more) = granted-owed mode opt lock_id t s in
    let (t', out, (ran, (sound, kept))) =
      run-owed env cfg txn_id cid es (granted true mode opt lock_id t) s' noted.1 in
    (
      t',
      out,
      (
        memory ∙ ran,
        (
          sound,
          kept
              ∙ ap (map (release_of env cfg txn_id cid)) (
                  ap (λ q. q ++ grants es) more
                  ∙ append_assoc (owed t) (node_of mode opt lock_id ∷ []) (grants es)),
        ),
      ),
    )
run-owed env cfg txn_id cid (look clock e ∷ es) t s noted =
    let rel = release_of env cfg txn_id cid in
    let (r, (ran, (s', kept))) = settle-owed env cfg clock txn_id cid e t s in
    let (t', out, (ran', (sound, kept'))) = run-owed env cfg txn_id cid es r.txn s' noted in
    (
      t',
      r.out ++ out,
      (
        rw (run, ran, ran') refl,
        (
          sound,
          append_assoc r.out out (map rel (owed t'))
              ∙ ap (λ l. r.out ++ l) (kept' ∙ map-append rel (owed r.txn) (grants es))
              ∙ sym (append_assoc r.out (map rel (owed r.txn)) (map rel (grants es)))
              ∙ ap (λ l. l ++ map rel (grants es)) kept
              ∙ sym (map-append rel (owed t) (grants es)),
        ),
      ),
    )

-- Fewer nodes than rounds.
visit_loop_short : (k : ℕ) (q : List TxnQueueNode) → length q < k → visit_loop k q ≡ none
unfolding visit_loop
visit_loop_short zero q h = absurd (omega (arith, h))
visit_loop_short (suc k) [] h = refl
visit_loop_short (suc k) (n ∷ q) h = rw (visit_loop_short k q (omega (arith, h))) refl

to_release_short :
    (mode opt lock_id : ℕ) (t : Txn)
    → IsSound t
    → to_release (granted false mode opt lock_id t) ≡ none
unfolding to_release
to_release_short mode opt lock_id t s =
    let left = length-drop t.txn_s t.queue in
    rw (to_release, skip_loop-drop t.txn_s t.queue (subst (λ r. t.txn_s ≤ r) s.counted s.below))
      (visit_loop_short (t.txn_r + 1 - t.txn_s) (drop t.txn_s t.queue)
        (omega (arith, left, s.counted, s.below)))

settle_short :
    (env : Env) (cfg : Config) (txn_id cid mode opt lock_id : ℕ) (clock : Clock) (e : ℕ) (t : Txn)
    → IsSound t
    → (t.txn_r + 1 ≡ t.locks)
      ⊎ ((t.txn_r + 1 < t.locks)
          × ((t.refresh_time + clock.expire_time e) % 2 ^ 64 < clock.cur_tsc))
    → settle env cfg clock txn_id cid e (granted false mode opt lock_id t) ≡ none
unfolding settle
settle_short env cfg txn_id cid mode opt lock_id clock e t s (inl full) =
    rw (eq→== (t.txn_r + 1) t.locks full, to_release_short mode opt lock_id t s) refl
settle_short env cfg txn_id cid mode opt lock_id clock e t s (inr (less, late)) =
    let not_full : (t.txn_r + 1 == t.locks) ≡ false = ground (arith, less) in
    rw
      (
        not_full,
        lt→ltb (t.txn_r + 1) t.locks less,
        lt→ltb ((t.refresh_time + clock.expire_time e) % 2 ^ 64) clock.cur_tsc late,
        to_release_short mode opt lock_id t s,
      )
      refl

-- A grant that finds no memory, on a sound transaction: the next look that releases locks, since as many
-- have come as were asked for, or since they are late, follows a null pointer.
pub run_out_of_memory :
    (env : Env) (cfg : Config) (txn_id cid mode opt lock_id : ℕ) (clock : Clock) (e : ℕ)
    (es : List Event) (t : Txn)
    → IsSound t
    → (t.txn_r + 1 ≡ t.locks)
      ⊎ ((t.txn_r + 1 < t.locks)
          × ((t.refresh_time + clock.expire_time e) % 2 ^ 64 < clock.cur_tsc))
    → run env cfg txn_id cid (grant false mode opt lock_id ∷ look clock e ∷ es) t ≡ none
unfolding run
run_out_of_memory env cfg txn_id cid mode opt lock_id clock e es t s comes =
    rw (run, settle_short env cfg txn_id cid mode opt lock_id clock e t s comes) refl
