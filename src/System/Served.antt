-- ===== src/System/Served.antt =====
-- What the lock server does with the requests that it keeps, whatever they satisfy, and whom it
-- grants.
use net_lock.Common.{
  ℕ, ◌<◌, ◌≡◌, ◌⊎◌, inl, inr, refl, subst, List, [], ◌∷◌, ◌++◌, map, Option, none, some, true, ◌==◌,
  ltb, if◌then◌else◌, write, All, All-append, Bool-cases, branches, ltb→lt, eq-of_some,
}
use net_lock.Wire.{Env, Packet, acquire_lock, release_lock, shared_lock, exclusive_lock}
use net_lock.LockQueue.{QueueNode, Dequeued}
use net_lock.Server.{
  Frame, Round, Server, primary_backup, max_lock_num, request_of, acquire_primary, release_primary,
  grant, grant_all, enqueue_request, pop, shared_run, wake_after_shared, wake_after_exclusive,
  count_shared, count_exclusive, dec32,
}
use net_lock.Server.Process.{process, within}
use net_lock.Server.Dispatch.{lock_of}

module _ {κ} (P : QueueNode → Type κ) where
  -- Every queued request satisfies `P`.
  abbrev pub AllQueued : Server → Type κ
  AllQueued s = (j : ℕ) → All P (s.queues j)

  -- A result that keeps it so and sends only grants of the lock to such requests.
  abbrev pub Grants : Env → ℕ → Server × List Packet → Type κ
  Grants env lock r =
      AllQueued r.0 × ((ns : List QueueNode) × ((r.1 ≡ map (grant env lock) ns) × All P ns))

  put-AllQueued :
      (lock : ℕ) (q : List QueueNode) (s : Server)
      → AllQueued s
      → All P q
      → (j : ℕ) → All P (write s.queues lock q j)
  unfolding write
  put-AllQueued lock q s all h j = branches (All P) (j == lock) h (all j)

  grant_all-Grants :
      (env : Env) (lock : ℕ) (ns : List QueueNode) (s : Server)
      → AllQueued s
      → All P ns
      → Grants env lock (grant_all env lock ns s)
  unfolding grant_all
  grant_all-Grants env lock ns s all h = (all, (ns, (refl, h)))

  acquire-Grants :
      (env : Env) (lock : ℕ) (n : QueueNode) (s : Server)
      → AllQueued s
      → P n
      → Grants env lock (acquire_primary env true lock n s)
  unfolding acquire_primary enqueue_request
  acquire-Grants env lock n s0 all h =
      let s : Server = record s0 { queues = write s0.queues lock (s0.queues lock ++ n ∷ []) } in
      let all' : AllQueued s =
        put-AllQueued lock (s0.queues lock ++ n ∷ []) s0 all
          (All-append P (s0.queues lock) (n ∷ []) (all lock) (h, tt)) in
      branches (Grants env lock) (n.mode == shared_lock)
        (grant_all-Grants env lock (if s.num_ex lock == 0 then n ∷ [] else []) (count_shared lock s)
          all' (branches (All P) (s.num_ex lock == 0) (h, tt) tt))
        (branches (Grants env lock) (n.mode == exclusive_lock)
          (grant_all-Grants env lock
            (if s.num_ex lock == 0 then (if s.num_sh lock == 0 then n ∷ [] else []) else [])
            (count_exclusive lock s) all'
            (branches (All P) (s.num_ex lock == 0)
              (branches (All P) (s.num_sh lock == 0) (h, tt) tt) tt))
          (all', ([], (refl, tt))))

  shared_run-All : (q : List QueueNode) → All P q → All P (shared_run q)
  unfolding shared_run
  shared_run-All [] h = tt
  shared_run-All (n ∷ q) h = branches (All P) (n.mode == shared_lock) (h.0, shared_run-All q h.1) tt

  wake_after_shared-All : (q : List QueueNode) → All P q → All P (wake_after_shared q)
  unfolding wake_after_shared
  wake_after_shared-All [] h = tt
  wake_after_shared-All (n ∷ q) h = branches (All P) (n.mode == exclusive_lock) (h.0, tt) tt

  wake_after_exclusive-All : (q : List QueueNode) → All P q → All P (wake_after_exclusive q)
  unfolding wake_after_exclusive
  wake_after_exclusive-All [] h = tt
  wake_after_exclusive-All (n ∷ q) h =
      branches (All P) (n.mode == exclusive_lock) (h.0, tt) (shared_run-All (n ∷ q) h)

  pop-All : (stale : Dequeued) (q : List QueueNode) → All P q → All P (pop stale q).1
  unfolding pop
  pop-All stale [] h = tt
  pop-All stale (n ∷ q) h = h.1

  release-Grants :
      (env : Env) (stale : Dequeued) (lock : ℕ) (s : Server)
      → AllQueued s
      → Grants env lock (release_primary env stale lock s)
  unfolding release_primary
  release-Grants env stale lock s0 all =
      let d = (pop stale (s0.queues lock)).0 in
      let rest = (pop stale (s0.queues lock)).1 in
      let h : All P rest = pop-All stale (s0.queues lock) (all lock) in
      let s : Server = record s0 { queues = write s0.queues lock rest } in
      let all' : AllQueued s = put-AllQueued lock rest s0 all h in
      branches (Grants env lock) (d.mode == shared_lock)
        (grant_all-Grants env lock (wake_after_shared rest)
          (record s { num_sh = write s.num_sh lock (dec32 (s.num_sh lock)) }) all'
          (wake_after_shared-All rest h))
        (branches (Grants env lock) (d.mode == exclusive_lock)
          (grant_all-Grants env lock (wake_after_exclusive rest)
            (record s { num_ex = write s.num_ex lock (dec32 (s.num_ex lock)) }) all'
            (wake_after_exclusive-All rest h))
          (all', ([], (refl, tt))))

  within-Grants :
      (env : Env) (lock : ℕ) (r q : Server × List Packet)
      → Grants env lock r
      → within lock r ≡ some q
      → (lock < max_lock_num) × Grants env lock q
  within-Grants env lock r q g e = elim (Bool-cases (ltb lock max_lock_num)) [
    | inl yes_lock ↦ (
      ltb→lt lock max_lock_num yes_lock,
      subst (Grants env lock) (eq-of_some (rw yes_lock at e)) g,
    )
    | inr no_lock ↦
        let refused : ◌≡◌ {A = Option (Server × List Packet)} none (some q) = rw no_lock at e in
        absurd cc
  ]

  -- A request or a release at the lock's own server.
  pub process-Grants :
      (env : Env) (round : Round) (f : Frame) (s : Server) (q : Server × List Packet)
      → f.mem_role ≡ primary_backup
      → round.has_memory ≡ true
      → (f.header.op_type ≡ acquire_lock) ⊎ (f.header.op_type ≡ release_lock)
      → AllQueued s
      → P (request_of f)
      → process env round f s ≡ some q
      → (lock_of f < max_lock_num) × Grants env (lock_of f) q
  unfolding process
  process-Grants env round f s q ours memory (inl op) all h e =
      within-Grants env (lock_of f) (acquire_primary env true (lock_of f) (request_of f) s) q
        (acquire-Grants env (lock_of f) (request_of f) s all h) (rw (ours, op, memory) at e)
  process-Grants env round f s q ours memory (inr op) all h e =
      within-Grants env (lock_of f) (release_primary env round.stale (lock_of f) s) q
        (release-Grants env round.stale (lock_of f) s all) (rw (ours, op) at e)
