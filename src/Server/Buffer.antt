-- ===== src/Server/Buffer.antt =====
-- The server as an overflow buffer for a lock whose queue is in the switch: it keeps requests in
-- order, and gives the oldest back when the switch asks.
use net_lock.Common.{
  ℕ, zero, suc, ◌≤◌, ◌≡◌, ◌∙◌, refl, ap₂, List, [], ◌∷◌, map, arith, ap, length, take, drop, ltb,
  All, if◌then◌else◌, write, write_self, All-parts, take-append-drop, subst, sym,
}
use Prim.Native.Nat.{min}
use net_lock.Wire.{Env, Packet}
use net_lock.LockQueue.{QueueNode, Dequeued, dequeued_of}
use net_lock.Server.{Server, pop, add64, push_back, push_back_loop, release_secondary}
use net_lock.Server.Wire.{InRange, requester, addressee, addressee-push_back}

module _ (env : Env) (lock : ℕ) where
  abbrev pushed : QueueNode → Packet
  pushed n = push_back env lock (dequeued_of n)

  push_back_loop-out :
      (k : ℕ) (q : List QueueNode) (stale : Dequeued) (s : Server)
      → s.queues lock ≡ q
      → k ≤ length q
      → let r = push_back_loop env lock k stale s in
        (r.1 ≡ map pushed (take k q)) × (r.0.queues lock ≡ drop k q)
  unfolding push_back_loop pop
  push_back_loop-out zero q stale s here h = (refl, here)
  push_back_loop-out (suc k) [] stale s here h = absurd (omega arith)
  push_back_loop-out (suc k) (n ∷ q) stale s here h =
      let s' : Server = record s {
        queues = write s.queues lock q;
        rx_write = add64 s.rx_write 1;
      } in
      let (out, rest) =
        push_back_loop-out k q (dequeued_of n) s' (write_self s.queues lock q) (omega arith) in
      rw here (ap₂ ◌∷◌ refl out, rest)

  addressees-pushed :
      (ns : List QueueNode) → All InRange ns → map addressee (map pushed ns) ≡ map requester ns
  addressees-pushed [] h = refl
  addressees-pushed (n ∷ ns) h =
      ap₂ ◌∷◌ (addressee-push_back env lock n h.0) (addressees-pushed ns h.1)

  -- Where the queued requests have the header's field widths: as many requests as both the queue
  -- and the switch's room allow go back, the oldest first and each under its own mode, client and
  -- transaction, and the others stay in order.
  pub release_secondary-take :
      (stale : Dequeued) (s : Server)
      → All InRange (s.queues lock)
      → let r = release_secondary env stale lock s in
        let k = min (length (s.queues lock)) (s.len_in_switch lock) in
        (map addressee r.1 ≡ map requester (take k (s.queues lock)))
        × (r.0.queues lock ≡ drop k (s.queues lock))
  unfolding release_secondary
  release_secondary-take stale s ranged =
      let q = s.queues lock in
      let room = s.len_in_switch lock in
      let rounds = if ltb (length q) room then length q else room in
      let k = min (length q) room in
      let same : rounds ≡ k = ground arith in
      let all =
        (All-parts InRange (take k q) (drop k q)
          (subst (All InRange) (sym (take-append-drop k q)) ranged)).0 in
      let (out, rest) = push_back_loop-out k q stale s refl (omega arith) in
      rw same (ap (map addressee) out ∙ addressees-pushed (take k q) all, rest)
