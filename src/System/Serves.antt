-- ===== src/System/Serves.antt =====
-- One lock at the server of a system: the server's history of it, and the holds of it that are under
-- way.
use net_lock.Common.{
  ℕ, ◌+◌, ◌^◌, ◌<◌, ◌≡◌, ◌≢◌, inl, inr, refl, sym, ap, ◌∙◌, subst, List, [], ◌∷◌, ◌++◌, map, some,
  true, ◌==◌, if◌then◌else◌, arith, length, drop, Bool-cases, eq→==, ==→eq,
}
use net_lock.Wire.{Env, Packet, acquire_lock, release_lock}
use net_lock.LockQueue.{QueueNode}
use net_lock.Server as Server
use net_lock.Server.{Server, grant, request_of}
use net_lock.Server.Process.{process}
use net_lock.Server.Dispatch.{lock_of}
use net_lock.Server.Wire.{addressee, requester}
use net_lock.Server.History as History
use net_lock.Server.History.{History, Addressed}
use net_lock.Server.Exclusion.{held_compatible}
use net_lock.Client.{max_lock_num}
use net_lock.System.{System}
use net_lock.System.Tags.{tag, matches}
use net_lock.System.Tally.{
  holds, holders_in, holders_in-append, tally-grants, holders_in-drop, some_holder,
}
use net_lock.System.Sound.{IsAsked, request_of-IsGrantable, op_of}
use net_lock.System.Holds.{served, served-holds, lock_of-tag, op-tag, tally-at}

-- The holders in the server's history are, mode by mode, the holds under way.
pub record Tracked (l : ℕ) (s : System) : Type 0 where
  pub history : History
  pub reach : History.Reach l history
  pub server : history.server ≡ s.server
  pub counts : (mode : ℕ) → holders_in mode history.held ≡ holds l mode s

-- A packet at the server, from a system that is tracked.
module _ (l : ℕ) (s : System) (env : Env) (round : Server.Round) (f : Server.Frame)
    (ps qs : List Packet) (p : Packet) (t : Server) (out : List Packet) (ns : List QueueNode)
    (sent : out ≡ map (grant env (lock_of f)) ns) (at_p : s.to_server ≡ ps ++ p ∷ qs)
    (same : f.header ≡ p.header) (ours : f.mem_role ≡ Server.primary_backup)
    (fits : lock_of f < max_lock_num) (c : Tracked l s) where
  moves :
      (mode : ℕ)
      → holds l mode (served s ps qs t out) + (if matches 1 l mode (tag p) then 1 else 0)
        ≡ holds l mode s + (if lock_of f == l then holders_in mode (map addressee out) else 0)
  moves mode = rw sent (
      served-holds l s ps qs p t _ mode at_p
      ∙ ap (λ k. holds l mode s + k) (tally-grants env (lock_of f) (omega (arith, fits)) l mode ns))

  in_history :
      process env round f s.server ≡ some (t, out)
      → process env round f c.history.server ≡ some (t, out)
  in_history ran = subst (λ z. process env round f z ≡ some (t, out)) (sym c.server) ran

  elsewhere-Tracked :
      lock_of f ≢ l
      → process env round f s.server ≡ some (t, out)
      → Tracked l (served s ps qs t out)
  elsewhere-Tracked apart ran = record {
    history = record c.history { server = t };
    reach = History.next c.reach (
        History.elsewhere env round f t out (λ e. omega (arith, e, ours)) (λ e. apart (sym e))
          (in_history ran));
    server = refl;
    counts = λ mode. ground (arith, c.counts mode, moves mode, lock_of-tag f p same);
  }

  module _ (asked : IsAsked p) (here : lock_of f ≡ l)
      (ran : process env round f s.server ≡ some (t, out)) where
    addressed : Addressed l f
    unfolding tag request_of
    addressed = record {
      ours = ours;
      lock = here;
      fits = rw (← here) fits;
      mode = (request_of-IsGrantable f p same asked.0).0;
      ranged =
          let (mode, who, txn) = request_of-IsGrantable f p same asked.0 in
          record { mode = omega (arith, mode); client = omega (arith, who); txn = txn };
    }

    acquires-Tracked :
        f.header.op_type ≡ acquire_lock
        → round.has_memory ≡ true
        → length (s.server.queues l) + 1 < 2 ^ 32
        → Tracked l (served s ps qs t out)
    acquires-Tracked op memory few = record {
      history = record {
        server = t;
        held = c.history.held ++ map addressee out;
        served = c.history.served ++ map addressee out;
        asked = c.history.asked ++ requester (request_of f) ∷ [];
      };
      reach = History.next c.reach (
          History.acquires env round f t out addressed op memory (rw c.server few)
            (in_history ran));
      server = refl;
      counts = λ mode. ground (
        arith,
        c.counts mode,
        moves mode,
        op-tag f p same,
        holders_in-append mode c.history.held (map addressee out),
      );
    }

    some_held : (tag p).op ≡ 1 → 0 < holders_in (tag p).mode c.history.held
    some_held op = ground (
      arith,
      c.counts (tag p).mode,
      tally-at 1 l (tag p).mode s.to_server ps qs p at_p,
      lock_of-tag f p same,
    )

    releases-Tracked : f.header.op_type ≡ release_lock → Tracked l (served s ps qs t out)
    releases-Tracked op =
        let held = c.history.held in
        let op' : (tag p).op ≡ 1 = op-tag f p same ∙ op in
        let pos = some_held op' in
        record {
          history = record {
            server = t;
            held = drop 1 held ++ map addressee out;
            served = c.history.served ++ map addressee out;
            asked = c.history.asked;
          };
          reach = History.next c.reach (
              History.releases env round f t out addressed op (some_holder (tag p).mode held pos)
                (in_history ran));
          server = refl;
          counts = λ mode. ground (
            arith,
            c.counts mode,
            moves mode,
            lock_of-tag f p same,
            holders_in-append mode (drop 1 held) (map addressee out),
            holders_in-drop held (tag p).mode mode (held_compatible l c.reach) pos,
          );
        }

  pub serves-Tracked :
      IsAsked p
      → round.has_memory ≡ true
      → ((k : ℕ) → length (s.server.queues k) + 1 < 2 ^ 32)
      → process env round f s.server ≡ some (t, out)
      → Tracked l (served s ps qs t out)
  serves-Tracked asked memory few ran = elim (Bool-cases (lock_of f == l)) [
    | inl here ↦
        let here' = ==→eq (lock_of f) l here in
        elim (op_of f p same asked) [
          | inl op ↦ acquires-Tracked asked here' ran op memory (few l)
          | inr op ↦ releases-Tracked asked here' ran op
        ]
    | inr apart ↦ elsewhere-Tracked (λ e. cc (eq→== _ _ e)) ran
  ]
