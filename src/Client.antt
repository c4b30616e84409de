-- ===== src/Client.antt =====
-- dpdk_code/client_code/client.c: the state of a client's core and what it does with one packet.
pub mod Receive
pub mod Transaction
pub mod Visit
pub mod Cores
pub mod Failure
pub mod Loop
mod Tests
use net_lock.Common.{
  ℕ, zero, suc, ◌+◌, ◌%◌, ◌^◌, List, [], ◌∷◌, ◌++◌, Option, none, some, Bool, ◌==◌, ◌||◌, ltb, leb,
  if◌then◌else◌, write,
}
use net_lock.Wire.{
  Env, MessageHeader, Packet, generate_write_request_pkt, release_lock, acquire_lock,
}
use net_lock.TxnQueue.{TxnQueueNode}
use net_lock.ThinkQueue.{ThinkQueueNode}
use net_lock.Latency.{LatencyStat}

abbrev pub failure_rollback : ℕ
failure_rollback = 0

abbrev pub failure_stop : ℕ
failure_stop = 1

abbrev pub failure_normal : ℕ
failure_normal = 2

abbrev pub max_client_num : ℕ
max_client_num = 8

abbrev pub max_txn_num : ℕ
max_txn_num = 1000000

abbrev pub max_lock_num : ℕ
max_lock_num = 7010000

-- The characters 's', 't' and 'v'.
abbrev pub synchronous : ℕ
synchronous = 115

abbrev pub tpcc_benchmark : ℕ
tpcc_benchmark = 116

abbrev pub tpcc_uniform_benchmark : ℕ
tpcc_uniform_benchmark = 118

-- What the arrays hold of one transaction of one client: `txn_queues`, `txn_s`, `txn_r`,
-- `locks_each_txn`, and so on, at `[cid][txn]`.
pub record Txn : Type 0 where
  pub queue : List TxnQueueNode
  pub txn_s : ℕ
  pub txn_r : ℕ
  pub locks : ℕ
  pub num_retries : ℕ
  pub deadlocked : Bool
  pub finished : Bool
  pub begin_time : ℕ
  pub refresh_time : ℕ
  pub refresh_time_failure : ℕ
  pub finish_time : ℕ

-- The settings, and what does not change in a core's loop. `ip_src` is
-- `ip_src_pton`.
pub record Config : Type 0 where
  pub benchmark : ℕ
  pub think_time : ℕ
  pub data_transfer_mode : ℕ
  pub client_num : ℕ
  pub increment_time : ℕ
  pub sample_interval : ℕ
  pub port_probe : ℕ
  pub ip_src : ℕ
  pub tsc_hz : ℕ

-- What a core reads and writes; `busy`, `failure_act` and `detect_failure` are indexed as in the
-- code. A `true` of `busy` is its 1.
pub record Client : Type 0 where
  pub txns : ℕ → ℕ → Txn
  pub busy : ℕ → ℕ → Bool
  pub failure_act : ℕ → ℕ
  pub detect_failure : ℕ → ℕ
  pub last_failure_status : ℕ
  pub think_queue : List ThinkQueueNode
  pub last_drain_tq_tsc : ℕ
  pub latency : LatencyStat
  pub samples : List ℕ
  pub sample_start : Bool
  pub rx : ℕ
  pub rx_read : ℕ
  pub rx_write : ℕ
  pub txn_count : ℕ

abbrev pub is_tpcc : Config → Bool
is_tpcc cfg = (cfg.benchmark == tpcc_benchmark) || (cfg.benchmark == tpcc_uniform_benchmark)

abbrev pub add64 : ℕ → ℕ → ℕ
add64 n k = (n + k) % 2 ^ 64

unfoldable pub release : Env → Config → (mode lock_id txn_id client_id : ℕ) → Packet
unfolding generate_write_request_pkt
release env cfg mode lock_id txn_id client_id =
    generate_write_request_pkt env release_lock mode lock_id txn_id cfg.ip_src 0 0 client_id
