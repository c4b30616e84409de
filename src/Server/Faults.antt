-- ===== src/Server/Faults.antt =====
-- What the lock server does where its callers or its memory let it down.
use net_lock.Common.{
  ℕ, ◌-◌, ◌^◌, ◌≡◌, ◌⊎◌, inl, inr, refl, List, [], ◌∷◌, ◌==◌, true, false, arith, write,
  if◌then◌else◌, Bool, some,
}
use net_lock.Wire.{Env, exclusive_lock, shared_lock}
use net_lock.LockQueue.{QueueNode, Dequeued}
use net_lock.Server.{
  Frame, Round, Server, failure_notification, acquire_primary, release_primary, reset_secondary,
  enqueue_request, grant_all, grant, pop, add64, wake_after_shared, wake_after_exclusive,
}
use net_lock.Server.Process.{process}
use net_lock.Server.Holders.{IsMode}
use net_lock.Server.Counters.{Counted}

-- No request, and both counters at 0.
pub record IsFree (lock : ℕ) (s : Server) : Type 0 where
  pub queue : s.queues lock ≡ []
  pub num_ex : s.num_ex lock ≡ 0
  pub num_sh : s.num_sh lock ≡ 0

-- A release of a free lock: the mode that decides is whatever the local held. If it reads as one of
-- the two modes, a counter wraps to 2^32 - 1, and though the queue stays empty, an exclusive
-- request is then not granted the lock.
pub release_primary-IsFree :
    (env : Env) (stale : Dequeued) (lock : ℕ) (n : QueueNode) (s : Server)
    → IsFree lock s
    → (stale.mode ≡ shared_lock) ⊎ (stale.mode ≡ exclusive_lock)
    → n.mode ≡ exclusive_lock
    → let t = (release_primary env stale lock s).0 in
      (t.queues lock ≡ [])
      × ((t.num_sh lock ≡ 2 ^ 32 - 1) ⊎ (t.num_ex lock ≡ 2 ^ 32 - 1))
      × ((acquire_primary env true lock n t).1 ≡ [])
unfolding release_primary acquire_primary enqueue_request grant_all pop write wake_after_shared
    wake_after_exclusive
release_primary-IsFree env stale lock n s i (inl sh) ex =
    (ground arith, inl (ground arith), ground arith)
release_primary-IsFree env stale lock n s i (inr is_ex) ex =
    (ground arith, inr (ground arith), ground arith)

-- A counter at 1 does not count an empty queue.
not-Counted :
    (lock : ℕ) (t : Server)
    → t.queues lock ≡ []
    → (t.num_sh lock ≡ 1) ⊎ (t.num_ex lock ≡ 1)
    → ¬ Counted t lock
not-Counted lock t empty off c =
    let sh : t.num_sh lock ≡ 0 = rw empty at c.shared in
    let ex : t.num_ex lock ≡ 0 = rw empty at c.exclusive in omega arith

-- A request of a known mode for a free lock while memory is out: the lock is granted, but the
-- request is not queued, so that the counters no longer count the queue.
pub acquire_primary_out_of_memory :
    (env : Env) (lock : ℕ) (n : QueueNode) (s : Server)
    → IsFree lock s
    → IsMode n
    → let r = acquire_primary env false lock n s in
      (r.1 ≡ grant env lock n ∷ []) × (r.0.queues lock ≡ []) × ¬ Counted r.0 lock
unfolding acquire_primary enqueue_request grant_all write
acquire_primary_out_of_memory env lock n s i h =
    let r = acquire_primary env false lock n s in
    let empty : r.0.queues lock ≡ [] = ground arith in
    let off : (r.0.num_sh lock ≡ 1) ⊎ (r.0.num_ex lock ≡ 1) = ground arith in
    (ground arith, empty, not-Counted lock r.0 empty off)

-- Whether a lock is among the recorded ones.
abbrev pub recorded : ℕ → List ℕ → Bool
recorded l [] = false
recorded l (k ∷ ks) = if l == k then true else recorded l ks

reset-queues :
    (ls : List ℕ) (l : ℕ) (s : Server)
    → ((reset_secondary ls s).queues l ≡ (if recorded l ls then [] else s.queues l))
      × ((reset_secondary ls s).num_sh l ≡ s.num_sh l)
      × ((reset_secondary ls s).num_ex l ≡ s.num_ex l)
unfolding reset_secondary write
reset-queues [] l s = (refl, refl, refl)
reset-queues (k ∷ ls) l s =
    let (queue, sh, ex) = reset-queues ls l (record s { queues = write s.queues k [] }) in
    (ground (arith, queue), sh, ex)

-- A failure notification, whatever its lock number and operation, empties the queue of each
-- recorded lock, and leaves every other queue and all the counters as they were.
pub process-failure :
    (env : Env) (round : Round) (f : Frame) (l : ℕ) (s : Server)
    → f.mem_role ≡ failure_notification
    → (t : Server) × (process env round f s ≡ some (t, []))
      × (t.queues l ≡ (if recorded l s.secondary_locks then [] else s.queues l))
      × (t.num_sh l ≡ s.num_sh l)
      × (t.num_ex l ≡ s.num_ex l)
unfolding process
process-failure env round f l s role =
    let (queue, sh, ex) = reset-queues s.secondary_locks l s in
    (
      record (reset_secondary s.secondary_locks s) {
        rx = add64 (reset_secondary s.secondary_locks s).rx 1;
      },
      rw role refl,
      queue,
      sh,
      ex,
    )
