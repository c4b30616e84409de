-- ===== src/Server/History.antt =====
-- One lock over the packets that its server receives: who was told to hold it and has not
-- released it, whom it was granted to so far, and who asked for it.
use net_lock.Common.{ℕ, ◌+◌, ◌^◌, ◌<◌, ◌≡◌, ◌≢◌, List, [], ◌∷◌, ◌++◌, map, some, true, length, drop}
use net_lock.Wire.{Env, Packet, acquire_lock, release_lock}
use net_lock.Server.{
  Frame, Round, Server, primary_backup, failure_notification, max_lock_num, request_of,
}
use net_lock.Server.Process.{process}
use net_lock.Server.Holders.{IsMode}
use net_lock.Server.Wire.{InRange, Who, requester, addressee}
use net_lock.Server.Dispatch.{lock_of}

pub record History : Type 0 where
  pub server : Server
  pub held : List Who
  pub served : List Who
  pub asked : List Who

-- A packet for the lock `l` at its own server, with a mode of the protocol.
pub record Addressed (l : ℕ) (f : Frame) : Type 0 where
  pub ours : f.mem_role ≡ primary_backup
  pub lock : lock_of f ≡ l
  pub fits : l < max_lock_num
  pub mode : IsMode (request_of f)
  pub ranged : InRange (request_of f)

-- A packet arrives: a request that finds memory, a release by one of those who hold the lock, or a
-- packet for another lock. Each step has its own clock and its own stale locals.
pub data Step (l : ℕ) (h : History) : History → Type 0 where
  acquires :
      (env : Env) (round : Round) (f : Frame) (s : Server) (out : List Packet)
      → Addressed l f
      → f.header.op_type ≡ acquire_lock
      → round.has_memory ≡ true
      → length (h.server.queues l) + 1 < 2 ^ 32
      → process env round f h.server ≡ some (s, out)
      → Step l h (record {
        server = s;
        held = h.held ++ map addressee out;
        served = h.served ++ map addressee out;
        asked = h.asked ++ requester (request_of f) ∷ [];
      })
  releases :
      (env : Env) (round : Round) (f : Frame) (s : Server) (out : List Packet)
      → Addressed l f
      → f.header.op_type ≡ release_lock
      → 0 < length h.held
      → process env round f h.server ≡ some (s, out)
      → Step l h (record {
        server = s;
        held = drop 1 h.held ++ map addressee out;
        served = h.served ++ map addressee out;
        asked = h.asked;
      })
  elsewhere :
      (env : Env) (round : Round) (f : Frame) (s : Server) (out : List Packet)
      → f.mem_role ≢ failure_notification
      → l ≢ lock_of f
      → process env round f h.server ≡ some (s, out)
      → Step l h (record h { server = s })

-- Before the first packet: empty queues, and counters at 0.
pub record IsStart (l : ℕ) (h : History) : Type 0 where
  pub queue : h.server.queues l ≡ []
  pub num_ex : h.server.num_ex l ≡ 0
  pub num_sh : h.server.num_sh l ≡ 0
  pub held : h.held ≡ []
  pub served : h.served ≡ []
  pub asked : h.asked ≡ []

pub data Reach (l : ℕ) : History → Type 0 where
  start : (h : History) → IsStart l h → Reach l h
  next : {g h : History} → Reach l g → Step l g h → Reach l h
