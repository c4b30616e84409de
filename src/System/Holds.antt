-- ===== src/System/Holds.antt =====
-- What each step does to the holds of a lock that are under way.
use net_lock.Common.{
  ℕ, ◌+◌, ◌≡◌, refl, ap, List, [], Bool, ◌∷◌, ◌++◌, map, if◌then◌else◌, arith, All,
}
use net_lock.Wire.{Packet}
use net_lock.Server as Server
use net_lock.Server.{Server, grant, request_of}
use net_lock.Server.Dispatch.{lock_of}
use net_lock.System.{System, Machine}
use net_lock.System.Tags.{Tag, tag, kept_tag, count, count-append, matches}
use net_lock.System.Machines.{IsRequest, answer_tag}
use net_lock.System.Tally.{kept, tally, tally-append, count-kept, holds}

tally-requests : (l mode : ℕ) (ps : List Packet) → All IsRequest ps → tally 1 l mode ps ≡ 0
tally-requests l mode [] h = refl
tally-requests l mode (p ∷ ps) h = ground (arith, h.0.1, tally-requests l mode ps h.1)

-- One entry of a list, in a tally.
pub tally-at :
    (op l mode : ℕ) (xs ps qs : List Packet) (p : Packet)
    → xs ≡ ps ++ p ∷ qs
    → tally op l mode xs ≡ tally op l mode (ps ++ qs) + (if matches op l mode (tag p) then 1 else 0)
tally-at op l mode xs ps qs p e =
    rw e (omega (arith, tally-append op l mode ps (p ∷ qs), tally-append op l mode ps qs))

kept-at :
    (l mode : ℕ) (xs ms ns : List Machine) (m n : Machine)
    → xs ≡ ms ++ m ∷ ns
    → count 1 l mode (kept (ms ++ n ∷ ns)) + count 1 l mode (map kept_tag m.client.think_queue)
      ≡ count 1 l mode (kept xs) + count 1 l mode (map kept_tag n.client.think_queue)
kept-at l mode xs ms ns m n e =
    rw e (omega (arith, count-kept 1 l mode ms ns m, count-kept 1 l mode ms ns n))

-- A list of tags split in two ways, in a count.
count-split :
    (op l mode : ℕ) (ts us vs ws : List Tag)
    → ts ++ us ≡ vs ++ ws
    → count op l mode ts + count op l mode us ≡ count op l mode vs + count op l mode ws
count-split op l mode ts us vs ws e =
    omega
      (arith, ap (count op l mode) e, count-append op l mode ts us, count-append op l mode vs ws)

matches-grant :
    (l mode : ℕ) (p : Packet)
    → (tag p).op ≡ 3
    → matches 3 l mode (tag p) ≡ matches 1 l mode (answer_tag p)
matches-grant l mode p op = rw op refl

-- The server takes a packet and sends `out`.
abbrev pub served : System → List Packet → List Packet → Server → List Packet → System
served s ps qs t out = record s { server = t; to_server = ps ++ qs; to_client = s.to_client ++ out }

pub lock_of-tag : (f : Server.Frame) (p : Packet) → f.header ≡ p.header → (tag p).lock ≡ lock_of f
unfolding tag
lock_of-tag f p same = rw same refl

pub op-tag : (f : Server.Frame) (p : Packet) → f.header ≡ p.header → (tag p).op ≡ f.header.op_type
unfolding tag
op-tag f p same = rw same refl

module _ (l : ℕ) where
  pub sends-holds :
      (s : System) (ms ns : List Machine) (m n : Machine) (out : List Packet) (mode : ℕ)
      → s.machines ≡ ms ++ m ∷ ns
      → n.client.think_queue ≡ m.client.think_queue
      → All IsRequest out
      → holds l mode (record s { machines = ms ++ n ∷ ns; to_server = s.to_server ++ out })
        ≡ holds l mode s
  sends-holds s ms ns m n out mode at_m same asks = omega (
    arith,
    kept-at l mode s.machines ms ns m n at_m,
    ap (λ q. count 1 l mode (map kept_tag q)) same,
    tally-append 1 l mode s.to_server out,
    tally-requests l mode out asks,
  )

  pub served-holds :
      (s : System) (ps qs : List Packet) (p : Packet) (t : Server) (out : List Packet) (mode : ℕ)
      → s.to_server ≡ ps ++ p ∷ qs
      → holds l mode (served s ps qs t out) + (if matches 1 l mode (tag p) then 1 else 0)
        ≡ holds l mode s + tally 3 l mode out
  served-holds s ps qs p t out mode at_p =
      omega
        (arith, tally-at 1 l mode s.to_server ps qs p at_p, tally-append 3 l mode s.to_client out)

  pub receives-holds :
      (s : System) (ms ns : List Machine) (ps qs out : List Packet) (m n : Machine) (p : Packet)
      (mode : ℕ)
      → s.machines ≡ ms ++ m ∷ ns
      → s.to_client ≡ ps ++ p ∷ qs
      → (tag p).op ≡ 3
      → map tag out ++ map kept_tag n.client.think_queue
        ≡ map kept_tag m.client.think_queue ++ answer_tag p ∷ []
      → holds l mode (record s {
        machines = ms ++ n ∷ ns;
        to_server = s.to_server ++ out;
        to_client = ps ++ qs;
      })
        ≡ holds l mode s
  receives-holds s ms ns ps qs out m n p mode at_m at_p op e = omega (
    arith,
    kept-at l mode s.machines ms ns m n at_m,
    tally-append 1 l mode s.to_server out,
    tally-at 3 l mode s.to_client ps qs p at_p,
    ap {B = ℕ} (λ (b : Bool). if b then 1 else 0) (matches-grant l mode p op),
    count-split 1 l mode (map tag out) (map kept_tag n.client.think_queue)
        (map kept_tag m.client.think_queue) (answer_tag p ∷ []) e,
  )

  pub drains-holds :
      (s : System) (ms ns : List Machine) (out : List Packet) (m n : Machine) (mode : ℕ)
      → s.machines ≡ ms ++ m ∷ ns
      → map tag out ++ map kept_tag n.client.think_queue ≡ map kept_tag m.client.think_queue
      → holds l mode (record s { machines = ms ++ n ∷ ns; to_server = s.to_server ++ out })
        ≡ holds l mode s
  drains-holds s ms ns out m n mode at_m e = omega (
    arith,
    kept-at l mode s.machines ms ns m n at_m,
    tally-append 1 l mode s.to_server out,
    ap (count 1 l mode) e,
    count-append 1 l mode (map tag out) (map kept_tag n.client.think_queue),
  )
