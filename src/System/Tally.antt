-- ===== src/System/Tally.antt =====
-- How many holds of a lock are under way: grants on their way to a client, grants that a client
-- keeps, and releases on their way to the server.
use net_lock.Common.{
  ℕ, ◌+◌, ◌^◌, ◌≤◌, ◌<◌, ◌≡◌, ◌⊎◌, inl, inr, refl, ap, ◌∙◌, List, [], ◌∷◌, ◌++◌, map, ◌==◌,
  if◌then◌else◌, arith, All, map-append, length, drop,
}
use net_lock.Wire.{Env, Packet, generate_write_request_pkt, shared_lock}
use net_lock.Wire.ByteOrder.{ntohl-htonl}
use net_lock.LockQueue.{QueueNode}
use net_lock.Server.{grant}
use net_lock.Server.Wire.{Who, addressee}
use net_lock.System.{System, Machine}
use net_lock.System.Tags.{Tag, tag, kept_tag, count, count-append}

-- The releases that the grants in the think queues are owed.
abbrev pub kept : List Machine → List Tag
kept [] = []
kept (m ∷ ms) = map kept_tag m.client.think_queue ++ kept ms

module _ (op l mode : ℕ) where
  abbrev pub tally : List Packet → ℕ
  tally ps = count op l mode (map tag ps)

  pub tally-append : (ps qs : List Packet) → tally (ps ++ qs) ≡ tally ps + tally qs
  tally-append ps qs =
      ap (count op l mode) (map-append tag ps qs) ∙ count-append op l mode (map tag ps) (map tag qs)

  pub count-kept :
      (ms ns : List Machine) (m : Machine)
      → count op l mode (kept (ms ++ m ∷ ns))
        ≡ count op l mode (kept ms)
          + (count op l mode (map kept_tag m.client.think_queue) + count op l mode (kept ns))
  count-kept [] ns m =
      omega (arith, count-append op l mode (map kept_tag m.client.think_queue) (kept ns))
  count-kept (n ∷ ms) ns m = omega (
    arith,
    count-append op l mode (map kept_tag n.client.think_queue) (kept (ms ++ m ∷ ns)),
    count-append op l mode (map kept_tag n.client.think_queue) (kept ms),
    count-kept ms ns m,
  )

-- Of the lock `l`, in the mode given.
abbrev pub holds : (l mode : ℕ) → System → ℕ
holds l mode s =
    tally 3 l mode s.to_client + (count 1 l mode (kept s.machines) + tally 1 l mode s.to_server)

-- Those who hold it in the mode given, as the server told them.
abbrev pub holders_in : (mode : ℕ) → List Who → ℕ
holders_in mode [] = 0
holders_in mode (w ∷ ws) = (if w.mode == mode then 1 else 0) + holders_in mode ws

pub holders_in-append :
    (mode : ℕ) (ws us : List Who)
    → holders_in mode (ws ++ us) ≡ holders_in mode ws + holders_in mode us
holders_in-append mode [] us = omega arith
holders_in-append mode (w ∷ ws) us = omega (arith, holders_in-append mode ws us)

-- The grants that the server sends for a lock.
module _ (env : Env) (lock : ℕ) (fits : lock < 2 ^ 32) where
  pub tag-grant :
      (n : QueueNode)
      → ((tag (grant env lock n)).op ≡ 3)
        × ((tag (grant env lock n)).lock ≡ lock)
        × ((tag (grant env lock n)).mode ≡ (addressee (grant env lock n)).mode)
  unfolding tag grant generate_write_request_pkt
  tag-grant n = (refl, ntohl-htonl lock fits, refl)

  pub tally-grants :
      (l mode : ℕ) (ns : List QueueNode)
      → tally 3 l mode (map (grant env lock) ns)
        ≡ (if lock == l then holders_in mode (map addressee (map (grant env lock) ns)) else 0)
  tally-grants l mode [] = ground arith
  tally-grants l mode (n ∷ ns) = ground (arith, tag-grant n, tally-grants l mode ns)

  pub tally-no_releases :
      (l mode : ℕ) (ns : List QueueNode) → tally 1 l mode (map (grant env lock) ns) ≡ 0
  tally-no_releases l mode [] = refl
  tally-no_releases l mode (n ∷ ns) = ground (arith, tag-grant n, tally-no_releases l mode ns)

-- Where all holders hold a lock shared or there is one of them, a mode that somebody holds it in is
-- that of the first.
pub shared_holders :
    (ws : List Who) (m : ℕ)
    → All (λ (w : Who). w.mode ≡ shared_lock) ws
    → 0 < holders_in m ws
    → m ≡ shared_lock
shared_holders [] m h some_hold = absurd (omega arith)
shared_holders (w ∷ ws) m h some_hold = ground (arith, shared_holders ws m h.1)

first_mode :
    (w : Who) (ws : List Who) (m : ℕ)
    → All (λ (w : Who). w.mode ≡ shared_lock) (w ∷ ws) ⊎ (length (w ∷ ws) ≡ 1)
    → 0 < holders_in m (w ∷ ws)
    → w.mode ≡ m
first_mode w ws m (inl h) some_hold = omega (arith, h.0, shared_holders (w ∷ ws) m h some_hold)
first_mode w [] m (inr one) some_hold = ground arith
first_mode w (u ∷ ws) m (inr one) some_hold = absurd (omega arith)

pub holders_in-drop :
    (ws : List Who) (m mode : ℕ)
    → All (λ (w : Who). w.mode ≡ shared_lock) ws ⊎ (length ws ≡ 1)
    → 0 < holders_in m ws
    → holders_in mode ws ≡ holders_in mode (drop 1 ws) + (if m == mode then 1 else 0)
holders_in-drop [] m mode alike some_hold = absurd (omega arith)
holders_in-drop (w ∷ ws) m mode alike some_hold =
    rw (first_mode w ws m alike some_hold) (omega arith)

-- The two modes together.
pub holders_in-le-length : (ws : List Who) → holders_in 0 ws + holders_in 1 ws ≤ length ws
holders_in-le-length [] = omega arith
holders_in-le-length (w ∷ ws) = ground (arith, holders_in-le-length ws)

pub holders_in-total :
    (ws : List Who)
    → All (λ (w : Who). w.mode ≤ 1) ws
    → holders_in 0 ws + holders_in 1 ws ≡ length ws
holders_in-total [] h = omega arith
holders_in-total (w ∷ ws) h = ground (arith, holders_in-total ws h.1)

pub some_holder : (mode : ℕ) (ws : List Who) → 0 < holders_in mode ws → 0 < length ws
some_holder mode [] h = absurd (omega arith)
some_holder mode (w ∷ ws) h = omega arith
