-- ===== src/Server/Dispatch.antt =====
-- Which handler a packet reaches, and what it leaves alone.
use net_lock.Common.{
  ℕ, zero, suc, ◌<◌, ◌≡◌, ◌∙◌, ◌≢◌, refl, List, some, true, arith, write, write-ne, lt→ltb,
  if◌then◌else◌, ltb, length,
}
use net_lock.Wire.{Env, Packet, ntohl, acquire_lock, release_lock}
use net_lock.LockQueue.{QueueNode, Dequeued}
use net_lock.Server.{
  Frame, Round, Server, primary_backup, failure_notification, max_lock_num, request_of,
  acquire_primary, release_primary, release_secondary, push_back_loop, enqueue_request, grant_all,
  pop, add64,
}
use net_lock.Server.Process.{process, finish}

abbrev pub lock_of : Frame → ℕ
lock_of f = ntohl f.header.lock_id

module _ (env : Env) (round : Round) (f : Frame) (s : Server) (l : ℕ)
    (ours : f.mem_role ≡ primary_backup) (lock : lock_of f ≡ l) (fits : l < max_lock_num) where
  pub process-acquire :
      f.header.op_type ≡ acquire_lock
      → round.has_memory ≡ true
      → process env round f s ≡ some (finish (acquire_primary env true l (request_of f) s))
  unfolding process
  process-acquire op memory = rw (ours, op, lock, memory, lt→ltb _ _ fits) refl

  pub process-release :
      f.header.op_type ≡ release_lock
      → process env round f s ≡ some (finish (release_primary env round.stale l s))
  unfolding process
  process-release op = rw (ours, op, lock, lt→ltb _ _ fits) refl

-- What one lock is to the server.
pub record Same (j : ℕ) (s t : Server) : Type 0 where
  pub queues : t.queues j ≡ s.queues j
  pub num_ex : t.num_ex j ≡ s.num_ex j
  pub num_sh : t.num_sh j ≡ s.num_sh j
  pub room : t.len_in_switch j ≡ s.len_in_switch j

module _ (env : Env) (lock j : ℕ) (other : j ≢ lock) where
  acquire-Same :
      (has_memory : _) (n : QueueNode) (s : Server)
      → Same j s (acquire_primary env has_memory lock n s).0
  unfolding acquire_primary enqueue_request grant_all write
  acquire-Same has_memory n s = ground arith

  release-Same : (stale : Dequeued) (s : Server) → Same j s (release_primary env stale lock s).0
  unfolding release_primary grant_all pop write
  release-Same stale s = ground arith

  enqueue-Same :
      (has_memory : _) (n : QueueNode) (s : Server) → Same j s (enqueue_request has_memory lock n s)
  unfolding enqueue_request write
  enqueue-Same has_memory n s = ground arith

  push_back-Same :
      (k : ℕ) (stale : Dequeued) (s : Server) → Same j s (push_back_loop env lock k stale s).0
  unfolding push_back_loop
  push_back-Same zero stale s = record { queues = refl; num_ex = refl; num_sh = refl; room = refl }
  push_back-Same (suc k) stale s =
      let (d, rest) = pop stale (s.queues lock) in
      let next : Server = record s {
        queues = write s.queues lock rest;
        rx_write = add64 s.rx_write 1;
      } in
      let same = push_back-Same k d next in
      record {
        queues = same.queues ∙ write-ne s.queues lock j rest other;
        num_ex = same.num_ex;
        num_sh = same.num_sh;
        room = same.room;
      }

  release_secondary-Same :
      (stale : Dequeued) (s : Server) → Same j s (release_secondary env stale lock s).0
  unfolding release_secondary
  release_secondary-Same stale s =
      let here = length (s.queues lock) in
      let room = s.len_in_switch lock in
      push_back-Same (if ltb here room then here else room) stale s

-- A packet for another lock leaves a lock as it was, unless it is a failure notification.
pub process-Same :
    (env : Env) (round : Round) (f : Frame) (j : ℕ) (s : Server) {r : Server × List Packet}
    → f.mem_role ≢ failure_notification
    → j ≢ lock_of f
    → process env round f s ≡ some r
    → Same j s r.0
unfolding process
process-Same env round f j s alive other done = ground (
  arith,
  acquire-Same env (lock_of f) j other round.has_memory (request_of f) s,
  release-Same env (lock_of f) j other round.stale s,
  enqueue-Same env (lock_of f) j other round.has_memory (request_of f) s,
  release_secondary-Same env (lock_of f) j other round.stale s,
)
