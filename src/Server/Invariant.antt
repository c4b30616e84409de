-- ===== src/Server/Invariant.antt =====
-- What every packet preserves: the counters count, those who hold the lock are the holders that
-- the queue shows, and the served and asked are what is finished and what the queue adds to it.
use net_lock.Common.{
  ℕ, ◌+◌, ◌^◌, ◌<◌, ◌≡◌, ◌∙◌, refl, sym, ap, subst, eq-of_some, List, [], ◌∷◌, ◌++◌, map, true,
  arith, length, drop, All, All-parts, All-append, append_assoc, map-append,
}
use net_lock.Wire.{Env}
use net_lock.LockQueue.{QueueNode, Dequeued}
use net_lock.Server.{Server, request_of, acquire_primary, release_primary}
use net_lock.Server.Process.{finish}
use net_lock.Server.Holders.{IsMode, holders, holders-All}
use net_lock.Server.Wire.{InRange, Who, requester, addressee, addressees-grant}
use net_lock.Server.Counters.{Counted, acquire-Counted, release-Counted}
use net_lock.Server.Grants.{acquire_primary-holders, release_primary-holders}
use net_lock.Server.Dispatch.{process-acquire, process-release, process-Same, Same}
use net_lock.Server.History.{
  History, Step, acquires, releases, elsewhere, IsStart, Reach, start, next,
}

pub record Inv (l : ℕ) (h : History) : Type 0 where
  pub counted : Counted h.server l
  pub ranged : All InRange (h.server.queues l)
  pub held : h.held ≡ map requester (holders (h.server.queues l))
  pub finished : List Who
  pub asked : h.asked ≡ finished ++ map requester (h.server.queues l)
  pub served : h.served ≡ finished ++ map requester (holders (h.server.queues l))

start-Inv : (l : ℕ) (h : History) → IsStart l h → Inv l h
start-Inv l h i = record {
  counted = record {
    modes = rw i.queue tt;
    shared = rw i.queue i.num_sh;
    exclusive = rw i.queue i.num_ex;
    bounded = rw i.queue (omega arith);
  };
  ranged = rw i.queue tt;
  held = rw i.queue i.held;
  finished = [];
  asked = rw i.queue i.asked;
  served = rw i.queue i.served;
}

module _ (env : Env) (l : ℕ) (n : QueueNode) (h : History) (v : Inv l h) where
  open v use {counted, ranged, held, finished, asked, served}

  acquired : History
  acquired =
      let r = acquire_primary env true l n h.server in
      record {
        server = (finish r).0;
        held = h.held ++ map addressee r.1;
        served = h.served ++ map addressee r.1;
        asked = h.asked ++ requester n ∷ [];
      }

  acquired-Inv : IsMode n → InRange n → length (h.server.queues l) + 1 < 2 ^ 32 → Inv l acquired
  unfolding acquired
  acquired-Inv mode range room =
      let q = h.server.queues l in
      let c = acquire-Counted env l n h.server counted mode room in
      let (fresh, queue, now, out) = acquire_primary-holders env l n h.server counted mode in
      let all = All-append InRange q (n ∷ []) ranged (range, tt) in
      let fresh_ranged : All InRange fresh =
        let now_ranged = holders-All InRange _ (subst (All InRange) (sym queue) all) in
        (All-parts InRange (holders q) fresh (subst (All InRange) now now_ranged)).1 in
      let told = ap (map addressee) out ∙ addressees-grant env l fresh fresh_ranged in
      record {
        counted = record {
          modes = c.modes;
          shared = c.shared;
          exclusive = c.exclusive;
          bounded = c.bounded;
        };
        ranged = rw queue all;
        held = rw (told, now, held) (sym (map-append requester (holders q) fresh));
        finished = finished;
        asked =
            rw (asked, queue, map-append requester q (n ∷ []))
              (append_assoc finished (map requester q) _);
        served =
            rw (told, now, served, map-append requester (holders q) fresh)
              (append_assoc finished (map requester (holders q)) _);
      }

-- The history after a release, and that the invariant survives it.
module _ (env : Env) (l : ℕ) (stale : Dequeued) (h : History) (v : Inv l h) (x : QueueNode)
    (q : List QueueNode) (here : h.server.queues l ≡ x ∷ q) where
  open v use {counted, ranged, held, finished, asked, served}

  released : History
  released =
      let r = release_primary env stale l h.server in
      record {
        server = (finish r).0;
        held = drop 1 h.held ++ map addressee r.1;
        served = h.served ++ map addressee r.1;
        asked = h.asked;
      }

  released-Inv : Inv l released
  unfolding released
  released-Inv =
      let c = release-Counted env l stale x q h.server here counted in
      let (rest, fresh, queue, before, now, out) =
        release_primary-holders env l stale x q h.server here counted.modes in
      let all : All InRange (x ∷ q) = subst (All InRange) here ranged in
      let fresh_ranged : All InRange fresh =
        let now_ranged = holders-All InRange _ (subst (All InRange) (sym queue) all.1) in
        (All-parts InRange rest fresh (subst (All InRange) now now_ranged)).1 in
      let told = ap (map addressee) out ∙ addressees-grant env l fresh fresh_ranged in
      record {
        counted = record {
          modes = c.modes;
          shared = c.shared;
          exclusive = c.exclusive;
          bounded = c.bounded;
        };
        ranged = rw queue all.1;
        held = rw (told, now, held, before) (sym (map-append requester rest fresh));
        finished = finished ++ requester x ∷ [];
        asked = rw (asked, here, queue) (sym (append_assoc finished (requester x ∷ []) _));
        served = rw (told, now, served, before) (simp (append_assoc, map-append));
      }

-- Somebody holds the lock only if a request is queued.
queue-cons :
    (l : ℕ) (h : History) (q : List QueueNode)
    → h.server.queues l ≡ q
    → h.held ≡ map requester (holders q)
    → 0 < length h.held
    → (x : QueueNode) × (r : List QueueNode) × (h.server.queues l ≡ x ∷ r)
queue-cons l h [] here held pos = absurd (omega (arith, ap length held))
queue-cons l h (x ∷ r) here held pos = (x, r, here)

-- A packet for another lock.
unmoved-Inv :
    (l : ℕ) (h : History) (s : Server)
    → Inv l h
    → Same l h.server s
    → Inv l (record h { server = s })
unmoved-Inv l h s v same = record {
  counted = record {
    modes = rw same.queues v.counted.modes;
    shared = rw (same.queues, same.num_sh) v.counted.shared;
    exclusive = rw (same.queues, same.num_ex) v.counted.exclusive;
    bounded = rw same.queues v.counted.bounded;
  };
  ranged = rw same.queues v.ranged;
  held = rw same.queues v.held;
  finished = v.finished;
  asked = rw same.queues v.asked;
  served = rw same.queues v.served;
}

Step-Inv : (l : ℕ) {g h : History} → Step l g h → Inv l g → Inv l h
unfolding acquired released
Step-Inv l {g} (acquires env round f s out a op memory room done) v =
    let made = process-acquire env round f g.server l a.ours a.lock a.fits op memory in
    subst
      (λ r. Inv l (record {
        server = r.0;
        held = g.held ++ map addressee r.1;
        served = g.served ++ map addressee r.1;
        asked = g.asked ++ requester (request_of f) ∷ [];
      }))
      (eq-of_some (sym made ∙ done)) (acquired-Inv env l (request_of f) g v a.mode a.ranged room)
Step-Inv l {g} (releases env round f s out a op pos done) v =
    let made = process-release env round f g.server l a.ours a.lock a.fits op in
    let (x, q, here) = queue-cons l g (g.server.queues l) refl v.held pos in
    subst
      (λ r. Inv l (record {
        server = r.0;
        held = drop 1 g.held ++ map addressee r.1;
        served = g.served ++ map addressee r.1;
        asked = g.asked;
      }))
      (eq-of_some (sym made ∙ done)) (released-Inv env l round.stale g v x q here)
Step-Inv l {g} (elsewhere env round f s out alive other done) v =
    unmoved-Inv l g s v (process-Same env round f l g.server alive other done)

pub Reach-Inv : (l : ℕ) {h : History} → Reach l h → Inv l h
Reach-Inv l (start h i) = start-Inv l h i
Reach-Inv l (next r st) = Step-Inv l st (Reach-Inv l r)
