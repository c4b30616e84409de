-- ===== src/System/Sound.antt =====
-- What is on its way and what is kept, in every system: packets of the protocol in both directions,
-- clients that can release what they keep, and queued requests that can be granted.
use net_lock.Common.{
  ℕ, ◌^◌, ◌≤◌, ◌<◌, ◌≡◌, ◌⊎◌, inl, inr, refl, sym, subst, List, [], ◌∷◌, ◌++◌, map, false, arith,
  All, All-append, All-parts,
}
use net_lock.Wire.{Env, Packet, acquire_lock, release_lock, generate_write_request_pkt}
use net_lock.Wire.ByteOrder.{ntohl-htonl, htonl-lt}
use net_lock.LockQueue.{QueueNode}
use net_lock.Server as Server
use net_lock.Server.{Server, grant, request_of}
use net_lock.Server.Dispatch.{lock_of}
use net_lock.Client.{Config, is_tpcc, max_client_num, max_lock_num}
use net_lock.System.{System, Machine, Step, sends, serves, receives, drains}
use net_lock.System.Tags.{tag, IsFine}
use net_lock.System.Served.{AllQueued, process-Grants}
use net_lock.System.Machines.{
  IsRequest, visit-Asks, IsRelease, IsReady, visit-IsReady, receive-Answers, drain_round-Drains,
}

-- A request or a release on its way to the server, and a grant on its way to a client.
abbrev pub IsAsked : Packet → Type 0
IsAsked p = IsFine (tag p) × (((tag p).op ≡ 0) ⊎ ((tag p).op ≡ 1))

abbrev pub IsGranted : Packet → Type 0
IsGranted p = IsFine (tag p) × ((tag p).op ≡ 3)

-- A queued request whose grant is such a packet.
abbrev pub IsGrantable : QueueNode → Type 0
IsGrantable n = (n.mode ≤ 1) × (n.client_id < max_client_num) × (n.txn_id < 2 ^ 32)

abbrev pub MachineIsReady : Config → Machine → Type 0
MachineIsReady cfg m = IsReady cfg m.client

pub record Sound (cfg : Config) (s : System) : Type 0 where
  pub requests : All IsAsked s.to_server
  pub grants : All IsGranted s.to_client
  pub ready : All (MachineIsReady cfg) s.machines
  pub queued : AllQueued IsGrantable s.server

-- One entry of a list is replaced, or leaves it.
module _ {ℓ κ} {A : Type ℓ} (P : A → Type κ) where
  pub All-at : (xs ys zs : List A) (x : A) → xs ≡ ys ++ x ∷ zs → All P xs → P x
  All-at xs ys zs x e h = (All-parts P ys (x ∷ zs) (subst (All P) e h)).1.0

  All-without : (xs ys zs : List A) (x : A) → xs ≡ ys ++ x ∷ zs → All P xs → All P (ys ++ zs)
  All-without xs ys zs x e h =
      let r = All-parts P ys (x ∷ zs) (subst (All P) e h) in All-append P ys zs r.0 r.1.1

  All-with :
      (xs ys zs : List A) (x y : A) → xs ≡ ys ++ x ∷ zs → All P xs → P y → All P (ys ++ y ∷ zs)
  All-with xs ys zs x y e h hy =
      let r = All-parts P ys (x ∷ zs) (subst (All P) e h) in
      All-append P ys (y ∷ zs) r.0 (hy, r.1.1)

requests-IsAsked : (ps : List Packet) → All IsRequest ps → All IsAsked ps
requests-IsAsked [] h = tt
requests-IsAsked (p ∷ ps) h = ((h.0.0, inl h.0.1), requests-IsAsked ps h.1)

releases-IsAsked : (ps : List Packet) → All IsRelease (map tag ps) → All IsAsked ps
releases-IsAsked [] h = tt
releases-IsAsked (p ∷ ps) h = ((h.0.0, inr h.0.1), releases-IsAsked ps h.1)

grants-IsGranted :
    (env : Env) (lock : ℕ) (ns : List QueueNode)
    → lock < max_lock_num
    → All IsGrantable ns
    → All IsGranted (map (grant env lock) ns)
unfolding tag grant generate_write_request_pkt
grants-IsGranted env lock [] fits h = tt
grants-IsGranted env lock (n ∷ ns) fits ((mode, who, txn), h) = (
  (
    (
      omega (arith, mode),
      omega (arith, who),
      subst (λ k. k < max_lock_num) (sym (ntohl-htonl lock (omega (arith, fits)))) fits,
      htonl-lt _,
    ),
    refl,
  ),
  grants-IsGranted env lock ns fits h,
)

-- The request that a packet carries can be granted.
pub request_of-IsGrantable :
    (f : Server.Frame) (p : Packet)
    → f.header ≡ p.header
    → IsFine (tag p)
    → IsGrantable (request_of f)
unfolding tag request_of
request_of-IsGrantable f p same (mode, who, lock, txn) = rw same (mode, who, txn)

-- The server reads it as a request or as a release.
pub op_of :
    (f : Server.Frame) (p : Packet)
    → f.header ≡ p.header
    → IsAsked p
    → (f.header.op_type ≡ acquire_lock) ⊎ (f.header.op_type ≡ release_lock)
unfolding tag
op_of f p same (fine, op) = rw same op

module _ (cfg : Config) (other : is_tpcc cfg ≡ false) where
  pub Step-Sound : {s t : System} → Step cfg s t → Sound cfg s → Sound cfg t
  Step-Sound {s} (sends env w clock cid ms ns m v plain who at_m ran) h =
      let asks = visit-Asks env cfg w clock cid m.sender m.client v other plain who ran in
      record {
        requests = All-append IsAsked s.to_server v.2 h.requests (requests-IsAsked v.2 asks.1);
        grants = h.grants;
        ready = All-with (MachineIsReady cfg) s.machines ms ns m _ at_m h.ready (
            visit-IsReady cfg m.client v.1 asks.0
              (All-at (MachineIsReady cfg) s.machines ms ns m at_m h.ready));
        queued = h.queued;
      }
  Step-Sound {s} (serves env round f ps qs p t out at_p same ours memory few ran) h =
      let asked : IsAsked p = All-at IsAsked s.to_server ps qs p at_p h.requests in
      let (fits, (queued, (ns, (sent, fine)))) =
        process-Grants IsGrantable env round f s.server (t, out) ours memory (op_of f p same asked)
          h.queued (request_of-IsGrantable f p same asked.0) ran in
      record {
        requests = All-without IsAsked s.to_server ps qs p at_p h.requests;
        grants =
            All-append IsGranted s.to_client out h.grants
              (subst (All IsGranted) (sym sent) (grants-IsGranted env (lock_of f) ns fits fine));
        ready = h.ready;
        queued = queued;
      }
  Step-Sound {s}
        (receives env round f ms ns m ps qs p c out at_m at_p same port normal memory room ran) h =
      let granted : IsGranted p = All-at IsGranted s.to_client ps qs p at_p h.grants in
      let a =
        receive-Answers env cfg round f p m.client (c, out) other same granted.0 granted.1 port
          normal memory room (All-at (MachineIsReady cfg) s.machines ms ns m at_m h.ready) ran in
      record {
        requests = All-append IsAsked s.to_server out h.requests (releases-IsAsked out a.1.0);
        grants = All-without IsGranted s.to_client ps qs p at_p h.grants;
        ready = All-with (MachineIsReady cfg) s.machines ms ns m _ at_m h.ready a.1.1;
        queued = h.queued;
      }
  Step-Sound {s} (drains env cur_tsc ms ns m c out at_m ran) h =
      let a =
        drain_round-Drains env cfg cur_tsc m.client (c, out)
          (All-at (MachineIsReady cfg) s.machines ms ns m at_m h.ready) ran in
      record {
        requests = All-append IsAsked s.to_server out h.requests (releases-IsAsked out a.1.0);
        grants = h.grants;
        ready = All-with (MachineIsReady cfg) s.machines ms ns m _ at_m h.ready a.1.1;
        queued = h.queued;
      }
