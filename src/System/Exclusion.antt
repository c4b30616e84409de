-- ===== src/System/Exclusion.antt =====
-- The lock server and its clients keep what a lock promises, whatever the network delays.
use net_lock.Common.{
  ℕ, zero, suc, ◌+◌, ◌≤◌, ◌<◌, ◌≡◌, ◌≢◌, ◌⊎◌, inl, inr, refl, sym, ap, ◌∙◌, subst, List, [], ◌∷◌,
  map, false, arith, All, length,
}
use net_lock.LockQueue.{QueueNode}
use net_lock.Server.Holders.{IsMode, holders, holders-All}
use net_lock.Server.Wire.{Who, requester}
use net_lock.Server.Invariant.{Reach-Inv}
use net_lock.Server.Exclusion.{held_compatible, held_while_queued}
use net_lock.Client.{Config, is_tpcc}
use net_lock.System.{System, Reach}
use net_lock.System.Tally.{
  holds, holders_in, shared_holders, holders_in-le-length, holders_in-total,
}
use net_lock.System.Sound.{IsGrantable}
use net_lock.System.Invariant.{Reach-Sound, Reach-Tracked}

-- Of all holders, one that is exclusive is alone.
exclusive_alone :
    (ws : List Who)
    → All (λ (w : Who). w.mode ≡ 0) ws ⊎ (length ws ≡ 1)
    → (holders_in 1 ws ≡ 0) ⊎ ((holders_in 1 ws ≡ 1) × (holders_in 0 ws ≡ 0))
exclusive_alone ws alike = go (holders_in 1 ws) refl alike
  where
    go :
        (k : ℕ)
        → holders_in 1 ws ≡ k
        → All (λ (w : Who). w.mode ≡ 0) ws ⊎ (length ws ≡ 1)
        → (holders_in 1 ws ≡ 0) ⊎ ((holders_in 1 ws ≡ 1) × (holders_in 0 ws ≡ 0))
    go zero e any = inl e
    go (suc k) e (inl shared) = absurd (omega (arith, e, shared_holders ws 1 shared))
    go (suc k) e (inr one) = inr (omega (arith, e, one, holders_in-le-length ws))

modes-map : (ns : List QueueNode) → All IsMode ns → All (λ (w : Who). w.mode ≤ 1) (map requester ns)
modes-map [] h = tt
modes-map (n ∷ ns) h = (h.0, modes-map ns h.1)

grantable-IsMode : (ns : List QueueNode) → All IsGrantable ns → All IsMode ns
grantable-IsMode [] h = tt
grantable-IsMode (n ∷ ns) h = (h.0.0, grantable-IsMode ns h.1)

module _ (cfg : Config) (other : is_tpcc cfg ≡ false) where
  -- Mutual exclusion, end to end, in every system of a lock server and clients outside TPC-C
  -- that starts with nothing under way and goes on by rounds of the senders over traces with the
  -- two modes and locks within the arrays, by packets at the lock's own server with memory and
  -- fewer than 2^32 requests queued, by replies at clients in normal operation with memory and
  -- room for a sample, and by drains, where packets are delivered in any order: of a lock,
  -- counting the grants on their way to a client, those that clients keep and the releases on
  -- their way to the server, there is no exclusive hold, or there is one and no shared hold.
  pub holds_exclude :
      {s : System} (l : ℕ)
      → Reach cfg s
      → (holds l 1 s ≡ 0) ⊎ ((holds l 1 s ≡ 1) × (holds l 0 s ≡ 0))
  holds_exclude {s} l r =
      let c = Reach-Tracked cfg other l r in
      elim (exclusive_alone c.history.held (held_compatible l c.reach)) [
        | inl free ↦ inl (omega (arith, c.counts 1))
        | inr (one, alone) ↦ inr (omega (arith, c.counts 1), omega (arith, c.counts 0))
      ]

  -- No wake-up is lost, end to end, in the same systems: while a request for a lock is queued at
  -- the server, a hold of the lock is on its way to a client, kept by one, or on its way back.
  pub held_if_queued :
      {s : System} (l : ℕ) → Reach cfg s → s.server.queues l ≢ [] → 0 < holds l 0 s + holds l 1 s
  held_if_queued {s} l r busy =
      let c = Reach-Tracked cfg other l r in
      let q = c.history.server.queues l in
      let same : q ≡ s.server.queues l = ap (λ (z : _). z.queues l) c.server in
      let modes = modes-map (holders q) (
        holders-All IsMode q (
          grantable-IsMode q
            (subst (All IsGrantable) (sym same) ((Reach-Sound cfg other r).queued l)))) in
      let held = (Reach-Inv l c.reach).held in
      omega (
        arith,
        c.counts 0,
        c.counts 1,
        holders_in-total c.history.held (subst (All (λ (w : Who). w.mode ≤ 1)) (sym held) modes),
        held_while_queued l c.reach (λ e. busy (sym same ∙ e)),
      )
