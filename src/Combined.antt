-- ===== src/Combined.antt =====
-- dpdk_code/client_code/simple_socket.c: one program that is a client or a lock server, by `role`.
pub mod Serving
pub mod Asking
pub mod Handling
pub mod Alike
pub mod Measure
pub mod Report
pub mod Loop
pub mod Split
mod Tests
use net_lock.Common.{ℕ, List, [], Option, none, some, Bool, ◌==◌, if◌then◌else◌}
use net_lock.Wire.{Env, MessageHeader, Packet}
use net_lock.LockQueue.{Dequeued}
use net_lock.Client as Client
use net_lock.Client.Receive.{receive, drain_round}
use net_lock.Client.Receive as Receive
use net_lock.Server as Server
use net_lock.Server.Process.{process}

-- The character 'c'.
abbrev pub role_client : ℕ
role_client = 99

-- The globals of both roles; `tput_stat[lcore_id]` is in the half of the role.
pub record Node : Type 0 where
  pub client : Client.Client
  pub server : Server.Server

-- A received packet, with what its handling reads by either role.
pub record Frame : Type 0 where
  pub dst_port : ℕ
  pub failure_status : ℕ
  pub mem_role : ℕ
  pub src2 : ℕ
  pub src3 : ℕ
  pub src4 : ℕ
  pub src5 : ℕ
  pub header : MessageHeader

-- A packet of a burst, with the clock, the memory and the stale locals that its handling finds.
pub record Arrival : Type 0 where
  pub env : Env
  pub has_memory : Bool
  pub stale : Dequeued
  pub frame : Frame

abbrev pub with_client : Node → Option (Client.Client × List Packet) → Option (Node × List Packet)
with_client n none = none
with_client n (some (c, out)) = some (record n { client = c }, out)

abbrev pub with_server : Node → Option (Server.Server × List Packet) → Option (Node × List Packet)
with_server n none = none
with_server n (some (s, out)) = some (record n { server = s }, out)
