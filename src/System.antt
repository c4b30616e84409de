-- ===== src/System.antt =====
-- The lock server together with its clients: dpdk_code/lock_server_code/server.c and
-- dpdk_code/client_code/client.c, joined by a network that keeps every packet until it delivers it,
-- in any order.
pub mod Tags
pub mod Served
pub mod Machines
pub mod Tally
pub mod Sound
pub mod Holds
pub mod Serves
pub mod Invariant
pub mod Exclusion
pub mod RoundTrip
mod Tests
use net_lock.Common.{
  ℕ, ◌+◌, ◌^◌, ◌≤◌, ◌<◌, ◌≡◌, ◌≢◌, List, [], ◌∷◌, ◌++◌, some, true, false, length, All,
}
use net_lock.Wire.{Env, Packet}
use net_lock.Server as Server
use net_lock.Server.{Server, primary_backup}
use net_lock.Server.Process.{process}
use net_lock.Server.History.{History, IsStart}
use net_lock.Client.{Config, Client, is_tpcc, failure_normal, max_client_num, max_lock_num}
use net_lock.Client.Transaction.{Clock}
use net_lock.Client.Receive as Receive
use net_lock.Client.Receive.{first_client, receive, drain_round}
use net_lock.Client.Receive.Answers.{HasRoom}
use net_lock.Client.Visit.{Trace, Sender, Visited, visit, lock_id_of}

-- A client program: its sending core, and the state that this core shares with its receiving core.
pub record Machine : Type 0 where
  pub sender : Sender
  pub client : Client

pub record System : Type 0 where
  pub server : Server
  pub machines : List Machine
  pub to_server : List Packet
  pub to_client : List Packet

-- A trace of the two modes, for locks within the arrays.
pub record IsPlain (w : Trace) : Type 0 where
  pub mode : (cid i : ℕ) → w.lock_type cid i ≤ 1
  pub lock : (cid i : ℕ) → lock_id_of w (w.target_obj_idx cid i) < max_lock_num

-- A core does a round for a client, the server handles a packet, a client handles a reply, or
-- drains its think queue. Who receives a reply does not matter.
pub data Step (cfg : Config) (s : System) : System → Type 0 where
  sends :
      (env : Env) (w : Trace) (clock : Clock) (cid : ℕ) (ms ns : List Machine) (m : Machine)
      (v : Visited)
      → IsPlain w
      → cid < max_client_num
      → s.machines ≡ ms ++ m ∷ ns
      → visit env cfg w clock cid m.sender m.client ≡ some v
      → Step cfg s (record s {
        machines = ms ++ record { sender = v.0; client = v.1 } ∷ ns;
        to_server = s.to_server ++ v.2;
      })
  serves :
      (env : Env) (round : Server.Round) (f : Server.Frame) (ps qs : List Packet) (p : Packet)
      (t : Server) (out : List Packet)
      → s.to_server ≡ ps ++ p ∷ qs
      → f.header ≡ p.header
      → f.mem_role ≡ primary_backup
      → round.has_memory ≡ true
      → ((l : ℕ) → length (s.server.queues l) + 1 < 2 ^ 32)
      → process env round f s.server ≡ some (t, out)
      → Step cfg s (record s { server = t; to_server = ps ++ qs; to_client = s.to_client ++ out })
  receives :
      (env : Env) (round : Receive.Round) (f : Receive.Frame) (ms ns : List Machine) (m : Machine)
      (ps qs : List Packet) (p : Packet) (c : Client) (out : List Packet)
      → s.machines ≡ ms ++ m ∷ ns
      → s.to_client ≡ ps ++ p ∷ qs
      → f.header ≡ p.header
      → f.dst_port ≢ cfg.port_probe
      → m.client.failure_act first_client ≡ failure_normal
      → round.has_memory ≡ true
      → HasRoom cfg m.client
      → receive env cfg round f m.client ≡ some (c, out)
      → Step cfg s (record s {
        machines = ms ++ record m { client = c } ∷ ns;
        to_server = s.to_server ++ out;
        to_client = ps ++ qs;
      })
  drains :
      (env : Env) (cur_tsc : ℕ) (ms ns : List Machine) (m : Machine) (c : Client)
      (out : List Packet)
      → s.machines ≡ ms ++ m ∷ ns
      → drain_round env cfg cur_tsc m.client ≡ some (c, out)
      → Step cfg s (record s {
        machines = ms ++ record m { client = c } ∷ ns;
        to_server = s.to_server ++ out;
      })

-- Nothing is under way, every lock is free, and no client keeps a grant.
pub record IsInitial (s : System) : Type 0 where
  pub queue : (l : ℕ) → s.server.queues l ≡ []
  pub num_ex : (l : ℕ) → s.server.num_ex l ≡ 0
  pub num_sh : (l : ℕ) → s.server.num_sh l ≡ 0
  pub idle : All (λ (m : Machine). m.client.think_queue ≡ []) s.machines
  pub to_server : s.to_server ≡ []
  pub to_client : s.to_client ≡ []

pub data Reach (cfg : Config) : System → Type 0 where
  start : (s : System) → IsInitial s → Reach cfg s
  next : {s t : System} → Reach cfg s → Step cfg s t → Reach cfg t
