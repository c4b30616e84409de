-- ===== src/Server/Wire.antt =====
-- What a packet of the server says on the wire: the fields of the request that it answers.
use net_lock.Common.{ℕ, ◌^◌, ◌<◌, ◌≡◌, refl, ap₂, List, [], ◌∷◌, map, arith, All}
use net_lock.Wire.{Env, Packet, generate_write_request_pkt}
use net_lock.Wire.ByteOrder.{htonl-ntohl}
use net_lock.LockQueue.{QueueNode, dequeued_of}
use net_lock.Server.{grant, push_back}

-- A request whose fields have the widths of the header: `uint8_t` and `uint32_t`.
pub record InRange (n : QueueNode) : Type 0 where
  pub mode : n.mode < 256
  pub client : n.client_id < 256
  pub txn : n.txn_id < 2 ^ 32

-- Who asks: the mode, the client and the transaction, as on the wire.
pub record Who : Type 0 where
  pub mode : ℕ
  pub client_id : ℕ
  pub txn_id : ℕ

abbrev pub requester : QueueNode → Who
requester n = record { mode = n.mode; client_id = n.client_id; txn_id = n.txn_id }

abbrev pub addressee : Packet → Who
addressee p = record {
  mode = p.header.mode;
  client_id = p.header.client_id;
  txn_id = p.header.txn_id;
}

pub addressee-grant :
    (env : Env) (lock : ℕ) (n : QueueNode) → InRange n → addressee (grant env lock n) ≡ requester n
unfolding grant generate_write_request_pkt
addressee-grant env lock n h = ground (arith, htonl-ntohl n.txn_id h.txn)

pub addressee-push_back :
    (env : Env) (lock : ℕ) (n : QueueNode)
    → InRange n
    → addressee (push_back env lock (dequeued_of n)) ≡ requester n
unfolding push_back generate_write_request_pkt dequeued_of
addressee-push_back env lock n h = ground (arith, htonl-ntohl n.txn_id h.txn)

pub addressees-grant :
    (env : Env) (lock : ℕ) (ns : List QueueNode)
    → All InRange ns
    → map addressee (map (grant env lock) ns) ≡ map requester ns
addressees-grant env lock [] h = refl
addressees-grant env lock (n ∷ ns) h =
    ap₂ ◌∷◌ (addressee-grant env lock n h.0) (addressees-grant env lock ns h.1)
