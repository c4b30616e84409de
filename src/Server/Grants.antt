-- ===== src/Server/Grants.antt =====
-- Whom the lock server grants a lock: an acquire and a release send a grant to exactly those
-- requests that become holders.
use net_lock.Common.{
  ℕ, ◌<◌, ◌≡◌, sym, refl, List, [], ◌∷◌, ◌++◌, map, true, arith, All, All-append, append-nil, ◌==◌,
  if◌then◌else◌, Bool-cases, inl, inr,
}
use native.Mathlib.Decide.{dec_lt}
use net_lock.Wire.{Env, shared_lock, exclusive_lock}
use net_lock.LockQueue.{QueueNode, Dequeued, dequeued_of}
use net_lock.Server.{
  Server, enqueue_request, acquire_primary, release_primary, grant, grant_all, pop,
  wake_after_shared, wake_after_exclusive,
}
use net_lock.Server.Holders.{
  IsMode, count_mode, count_mode-append, holders, count_total, holders-eq_self, holders-behind,
  holders-exclusive, shared_prefix, prefix-append-wake, wake_after_exclusive-holders,
}
use net_lock.Server.Counters.{Counted, acquire-queue, release-queue}

module _ (env : Env) (lock : ℕ) (n : QueueNode) (s : Server) where
  -- Whom the code answers, by the mode and the two counters.
  abbrev admitted : List QueueNode
  admitted =
      if n.mode == shared_lock
      then (if s.num_ex lock == 0 then n ∷ [] else [])
      else (if s.num_ex lock == 0 then (if s.num_sh lock == 0 then n ∷ [] else []) else [])

  acquire-out : IsMode n → (acquire_primary env true lock n s).1 ≡ map (grant env lock) admitted
  unfolding acquire_primary enqueue_request grant_all
  acquire-out h = ground arith

  module _ (x : QueueNode) (q : List QueueNode) (modes : All IsMode (x ∷ q))
      (sh : s.num_sh lock ≡ count_mode shared_lock (x ∷ q))
      (ex : s.num_ex lock ≡ count_mode exclusive_lock (x ∷ q)) (h : IsMode n) where
    none_exclusive :
        count_mode exclusive_lock (x ∷ q) ≡ 0
        → holders ((x ∷ q) ++ n ∷ []) ≡ holders (x ∷ q) ++ admitted
    none_exclusive no_ex =
        let all = holders-eq_self (x ∷ q) modes no_ex in
        elim (Bool-cases (n.mode == shared_lock)) [
          | inl is_sh ↦
              let no_ex' : count_mode exclusive_lock ((x ∷ q) ++ n ∷ []) ≡ 0 =
                ground (arith, count_mode-append exclusive_lock (x ∷ q) n) in
              let modes' = All-append IsMode (x ∷ q) (n ∷ []) modes (h, tt) in
              ground (arith, all, holders-eq_self ((x ∷ q) ++ n ∷ []) modes' no_ex')
          | inr is_ex ↦
              let same = holders-exclusive x q n (ground arith) in
              let total = count_total (x ∷ q) modes in
              let nobody : admitted ≡ [] = ground (arith, total) in
              rw (same, nobody, append-nil (holders (x ∷ q))) refl
        ]

    some_exclusive :
        0 < count_mode exclusive_lock (x ∷ q)
        → holders ((x ∷ q) ++ n ∷ []) ≡ holders (x ∷ q) ++ admitted
    some_exclusive has_ex =
        let nobody : admitted ≡ [] = ground arith in
        rw (holders-behind (x ∷ q) n has_ex, nobody, append-nil (holders (x ∷ q))) refl

  admitted-holders :
      (q : List QueueNode)
      → s.queues lock ≡ q
      → Counted s lock
      → IsMode n
      → holders (q ++ n ∷ []) ≡ holders q ++ admitted
  admitted-holders [] here c h =
      let sh : s.num_sh lock ≡ 0 = rw here at c.shared in
      let ex : s.num_ex lock ≡ 0 = rw here at c.exclusive in ground arith
  admitted-holders (x ∷ q) here c h =
      let modes : All IsMode (x ∷ q) = rw here at c.modes in
      let sh : s.num_sh lock ≡ count_mode shared_lock (x ∷ q) = rw here at c.shared in
      let ex : s.num_ex lock ≡ count_mode exclusive_lock (x ∷ q) = rw here at c.exclusive in
      elim (dec_lt 0 (count_mode exclusive_lock (x ∷ q))) [
        | yes has_ex ↦ some_exclusive x q modes sh ex h has_ex
        | no no_ex ↦ none_exclusive x q modes sh ex h (omega arith)
      ]

  -- With memory at hand and the counters right, an acquire of a known mode queues the request last
  -- and sends grants to exactly the requests that become holders by it: the new one, or nobody.
  pub acquire_primary-holders :
      Counted s lock
      → IsMode n
      → let r = acquire_primary env true lock n s in
        (fresh : List QueueNode) × (r.0.queues lock ≡ s.queues lock ++ n ∷ [])
        × (holders (r.0.queues lock) ≡ holders (s.queues lock) ++ fresh)
        × (r.1 ≡ map (grant env lock) fresh)
  acquire_primary-holders c h = (
    admitted,
    acquire-queue env lock n s,
    rw (acquire-queue env lock n s) (admitted-holders (s.queues lock) refl c h),
    acquire-out h,
  )

module _ (env : Env) (lock : ℕ) (stale : Dequeued) (x : QueueNode) (q : List QueueNode) (s : Server)
    (here : s.queues lock ≡ x ∷ q) where
  abbrev woken : List QueueNode
  woken = if x.mode == shared_lock then wake_after_shared q else wake_after_exclusive q

  release-out : IsMode x → (release_primary env stale lock s).1 ≡ map (grant env lock) woken
  unfolding release_primary grant_all pop dequeued_of
  release-out h = ground (arith, here)

  woken-holders :
      IsMode x
      → All IsMode q
      → (rest : List QueueNode) × (holders (x ∷ q) ≡ x ∷ rest) × (holders q ≡ rest ++ woken)
  woken-holders h hs = elim (Bool-cases (x.mode == shared_lock)) [
    | inl is_sh ↦ (shared_prefix q, ground arith, rw is_sh (sym (prefix-append-wake q hs)))
    | inr is_ex ↦ ([], ground arith, rw is_ex (sym (wake_after_exclusive-holders q)))
  ]

  -- On a queue of requests of known modes, a release takes the oldest request, a holder, from the
  -- queue, and sends grants to exactly the requests that become holders by it.
  pub release_primary-holders :
      All IsMode (s.queues lock)
      → let r = release_primary env stale lock s in
        (rest fresh : List QueueNode) × (r.0.queues lock ≡ q)
        × (holders (s.queues lock) ≡ x ∷ rest)
        × (holders (r.0.queues lock) ≡ rest ++ fresh)
        × (r.1 ≡ map (grant env lock) fresh)
  release_primary-holders hs =
      let modes : All IsMode (x ∷ q) = rw here at hs in
      let (rest, before, after) = woken-holders modes.0 modes.1 in
      let taken = release-queue env lock stale x q s here in
      (rest, woken, taken, rw here before, rw taken after, release-out modes.0)
