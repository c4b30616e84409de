-- ===== src/System/Tags.antt =====
-- What the parties read of a packet, and how many packets of a kind there are.
use net_lock.Common.{
  ℕ, ◌+◌, ◌%◌, ◌^◌, ◌≤◌, ◌<◌, ◌≡◌, refl, ap₂, List, [], ◌∷◌, ◌++◌, map, Bool, ◌==◌, ◌&&◌,
  if◌then◌else◌, arith,
}
use net_lock.Wire.{Env, Packet, htonl, ntohl, generate_write_request_pkt}
use net_lock.ThinkQueue.{ThinkQueueNode}
use net_lock.Client.{Config, release, max_client_num, max_lock_num}
use net_lock.Client.Receive.Drains.{released}

-- The operation, the mode, the client, the transaction as on the wire, and the lock in host order.
pub record Tag : Type 0 where
  pub txn : ℕ
  pub op : ℕ
  pub mode : ℕ
  pub client : ℕ
  pub lock : ℕ

unfoldable pub tag : Packet → Tag
tag p = record {
  txn = p.header.txn_id;
  op = p.header.op_type;
  mode = p.header.mode;
  client = p.header.client_id;
  lock = ntohl p.header.lock_id;
}

-- The tag of the release that a kept grant is owed.
abbrev pub kept_tag : ThinkQueueNode → Tag
kept_tag n = record {
  txn = htonl n.txn_id;
  op = 1;
  mode = n.mode % 256;
  client = n.client_id % 256;
  lock = ntohl (htonl n.lock_id);
}

pub tag-released :
    (env : Env) (cfg : Config) (n : ThinkQueueNode) → tag (released env cfg n) ≡ kept_tag n
unfolding tag release generate_write_request_pkt
tag-released env cfg n = refl

pub tags-released :
    (env : Env) (cfg : Config) (q : List ThinkQueueNode)
    → map tag (map (released env cfg) q) ≡ map kept_tag q
tags-released env cfg [] = refl
tags-released env cfg (n ∷ q) = ap₂ ◌∷◌ (tag-released env cfg n) (tags-released env cfg q)

-- A packet of the protocol between these two programs, for a lock and a client within the arrays.
abbrev pub IsFine : Tag → Type 0
IsFine t = (t.mode ≤ 1) × (t.client < max_client_num) × (t.lock < max_lock_num) × (t.txn < 2 ^ 32)

abbrev pub matches : (op lock mode : ℕ) → Tag → Bool
matches op lock mode t = (t.op == op) && (t.lock == lock) && (t.mode == mode)

abbrev pub count : (op lock mode : ℕ) → List Tag → ℕ
count op lock mode [] = 0
count op lock mode (t ∷ ts) = (if matches op lock mode t then 1 else 0) + count op lock mode ts

pub count-append :
    (op lock mode : ℕ) (ts us : List Tag)
    → count op lock mode (ts ++ us) ≡ count op lock mode ts + count op lock mode us
count-append op lock mode [] us = omega arith
count-append op lock mode (t ∷ ts) us = omega (arith, count-append op lock mode ts us)
