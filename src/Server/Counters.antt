-- ===== src/Server/Counters.antt =====
-- The counters `num_sh` and `num_ex` count the queued requests of each mode.
use net_lock.Common.{
  ℕ, ◌+◌, ◌^◌, ◌<◌, ◌≡◌, List, [], ◌∷◌, ◌++◌, true, arith, length, All, ◌==◌, if◌then◌else◌, write,
  length-append, All-append,
}
use net_lock.Wire.{Env, shared_lock, exclusive_lock}
use net_lock.LockQueue.{QueueNode, Dequeued, dequeued_of}
use net_lock.Server.{
  Server, enqueue_request, acquire_primary, release_primary, grant_all, pop, inc32, dec32,
}
use net_lock.Server.Holders.{IsMode, count_mode, count_mode-append, count_total}

pub record Counted (s : Server) (lock : ℕ) : Type 0 where
  pub modes : All IsMode (s.queues lock)
  pub shared : s.num_sh lock ≡ count_mode shared_lock (s.queues lock)
  pub exclusive : s.num_ex lock ≡ count_mode exclusive_lock (s.queues lock)
  pub bounded : length (s.queues lock) < 2 ^ 32

module _ (env : Env) (lock : ℕ) (n : QueueNode) (s : Server) where
  pub acquire-queue : (acquire_primary env true lock n s).0.queues lock ≡ s.queues lock ++ n ∷ []
  unfolding acquire_primary enqueue_request grant_all write
  acquire-queue = ground arith

  pub acquire-num_sh :
      IsMode n
      → (acquire_primary env true lock n s).0.num_sh lock
        ≡ (if n.mode == shared_lock then inc32 (s.num_sh lock) else s.num_sh lock)
  unfolding acquire_primary enqueue_request grant_all write
  acquire-num_sh h = ground arith

  pub acquire-num_ex :
      IsMode n
      → (acquire_primary env true lock n s).0.num_ex lock
        ≡ (if n.mode == exclusive_lock then inc32 (s.num_ex lock) else s.num_ex lock)
  unfolding acquire_primary enqueue_request grant_all write
  acquire-num_ex h = ground arith

  -- A request that is queued is counted.
  pub acquire-Counted :
      Counted s lock
      → IsMode n
      → length (s.queues lock) + 1 < 2 ^ 32
      → Counted (acquire_primary env true lock n s).0 lock
  acquire-Counted c h room =
      let total = count_total (s.queues lock) c.modes in
      record {
        modes = rw acquire-queue (All-append IsMode (s.queues lock) (n ∷ []) c.modes (h, tt));
        shared =
            rw (acquire-queue, acquire-num_sh h)
              (ground (arith, c.shared, total, count_mode-append shared_lock (s.queues lock) n));
        exclusive =
            rw (acquire-queue, acquire-num_ex h)
              (ground
                (arith, c.exclusive, total, count_mode-append exclusive_lock (s.queues lock) n));
        bounded = rw acquire-queue (omega (arith, length-append (s.queues lock) (n ∷ [])));
      }

module _ (env : Env) (lock : ℕ) (stale : Dequeued) (x : QueueNode) (q : List QueueNode) (s : Server)
    (here : s.queues lock ≡ x ∷ q) where
  pub release-queue : (release_primary env stale lock s).0.queues lock ≡ q
  unfolding release_primary grant_all pop write
  release-queue = ground (arith, here)

  pub release-num_sh :
      IsMode x
      → (release_primary env stale lock s).0.num_sh lock
        ≡ (if x.mode == shared_lock then dec32 (s.num_sh lock) else s.num_sh lock)
  unfolding release_primary grant_all pop write dequeued_of
  release-num_sh h = ground (arith, here)

  pub release-num_ex :
      IsMode x
      → (release_primary env stale lock s).0.num_ex lock
        ≡ (if x.mode == exclusive_lock then dec32 (s.num_ex lock) else s.num_ex lock)
  unfolding release_primary grant_all pop write dequeued_of
  release-num_ex h = ground (arith, here)

  -- A request that is taken from the queue is no longer counted.
  pub release-Counted : Counted s lock → Counted (release_primary env stale lock s).0 lock
  release-Counted c =
      let modes : All IsMode (x ∷ q) = rw here at c.modes in
      let sh : s.num_sh lock ≡ count_mode shared_lock (x ∷ q) = rw here at c.shared in
      let ex : s.num_ex lock ≡ count_mode exclusive_lock (x ∷ q) = rw here at c.exclusive in
      let small : length (x ∷ q) < 2 ^ 32 = rw here at c.bounded in
      let total = count_total q modes.1 in
      record {
        modes = rw release-queue modes.1;
        shared = rw (release-queue, release-num_sh modes.0) (ground arith);
        exclusive = rw (release-queue, release-num_ex modes.0) (ground arith);
        bounded = rw release-queue (omega arith);
      }
