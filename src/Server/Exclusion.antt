-- ===== src/Server/Exclusion.antt =====
-- The lock server is a lock server: in every history the requests that hold a lock may hold it
-- together, grants go out in the order of arrival, and a lock that is asked for is held.
use net_lock.Common.{
  ℕ, ◌<◌, ◌≡◌, ◌≢◌, ◌∙◌, ◌⊎◌, inl, inr, refl, sym, List, [], ◌∷◌, ◌++◌, map, arith, length, All, ap,
  append_assoc, map-append,
}
use net_lock.Wire.{shared_lock}
use net_lock.LockQueue.{QueueNode}
use net_lock.Server.Holders.{
  IsMode, holders, waiting, holders-append-waiting, holders_compatible, holders_pos, IsShared,
}
use net_lock.Server.Wire.{Who, requester}
use net_lock.Server.History.{History, Reach}
use net_lock.Server.Invariant.{Reach-Inv}

length-map : (ns : List QueueNode) → length (map requester ns) ≡ length ns
length-map [] = omega arith
length-map (n ∷ ns) = omega (arith, length-map ns)

shared-map :
    (ns : List QueueNode)
    → All IsShared ns
    → All (λ (w : Who). w.mode ≡ shared_lock) (map requester ns)
shared-map [] h = tt
shared-map (n ∷ ns) h = (h.0, shared-map ns h.1)

-- Mutual exclusion, in every history of a lock that begins with an empty queue and counters at 0,
-- where each request for the lock finds memory and has one of the two modes and the header's field
-- widths, fewer than 2^32 requests are queued, only a holder releases, and no failure notification
-- comes: all who hold the lock by the grants sent hold it shared, or there is only one of them.
pub held_compatible :
    (l : ℕ) {h : History}
    → Reach l h
    → All (λ (w : Who). w.mode ≡ shared_lock) h.held ⊎ (length h.held ≡ 1)
held_compatible l {h} r =
    let v = Reach-Inv l r in
    let q = holders (h.server.queues l) in
    elim (holders_compatible (h.server.queues l)) [
      | inl all ↦ inl (rw v.held (shared-map q all))
      | inr one ↦ inr (rw v.held (length-map q ∙ one))
    ]

-- First come, first served, in the same histories: the grants sent so far are, in order, a first
-- part of the requests that arrived.
pub served_in_order :
    (l : ℕ) {h : History} → Reach l h → (later : List Who) × (h.asked ≡ h.served ++ later)
served_in_order l {h} r =
    let v = Reach-Inv l r in
    let q = h.server.queues l in
    let split = map-append requester (holders q) (waiting q) in
    (
      map requester (waiting q),
      v.asked
          ∙ ap (λ ns. v.finished ++ ns)
              (ap (map requester) (sym (holders-append-waiting q)) ∙ split)
          ∙ sym (append_assoc v.finished (map requester (holders q)) _)
          ∙ ap (λ ws. ws ++ map requester (waiting q)) (sym v.served),
    )

-- No wake-up is lost, in the same histories: while a request is queued, somebody holds the lock.
pub held_while_queued :
    (l : ℕ) {h : History} → Reach l h → h.server.queues l ≢ [] → 0 < length h.held
held_while_queued l {h} r busy =
    let v = Reach-Inv l r in go (h.server.queues l) v.held v.counted.modes busy
  where
    go :
        (q : List QueueNode)
        → h.held ≡ map requester (holders q)
        → All IsMode q
        → q ≢ []
        → 0 < length h.held
    go [] held modes ne = absurd (ne refl)
    go (x ∷ q) held modes ne =
        omega (arith, ap length held, length-map (holders (x ∷ q)), holders_pos x q modes.0)
