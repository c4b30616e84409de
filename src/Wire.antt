-- ===== src/Wire.antt =====
-- The NetLock header on the wire: dpdk_code/lock_server_code/include/util.h (constants and
-- MessageHeader) and the packet generators of dpdk_code/lock_server_code/server.c.
-- The hosts are little-endian, so `htonl` and `ntohl` reverse the four bytes.
pub mod ByteOrder
use net_lock.Common.{ℕ, ◌+◌, ◌*◌, ◌/◌, ◌%◌, ◌^◌, ◌==◌, if◌then◌else◌}

abbrev pub acquire_lock : ℕ
acquire_lock = 0

abbrev pub release_lock : ℕ
release_lock = 1

abbrev pub push_back_lock : ℕ
push_back_lock = 2

abbrev pub grant_lock_from_server : ℕ
grant_lock_from_server = 3

abbrev pub reject_lock_acquire : ℕ
reject_lock_acquire = 4

abbrev pub shared_lock : ℕ
shared_lock = 0

abbrev pub exclusive_lock : ℕ
exclusive_lock = 1

-- The bytes of a 32-bit word in the other order.
unfoldable pub htonl : ℕ → ℕ
htonl x = x % 256 * 2 ^ 24 + x / 256 % 256 * 2 ^ 16 + x / 2 ^ 16 % 256 * 256 + x / 2 ^ 24 % 256

unfoldable pub ntohl : ℕ → ℕ
unfolding htonl
ntohl x = htonl x

unfoldable pub htons : ℕ → ℕ
htons x = x % 256 * 256 + x / 256 % 256

-- `MessageHeader`; the 32-bit fields hold what is on the wire.
pub record MessageHeader : Type 0 where
  pub recirc_flag : ℕ
  pub op_type : ℕ
  pub mode : ℕ
  pub client_id : ℕ
  pub txn_id : ℕ
  pub lock_id : ℕ
  pub payload : ℕ

-- A packet as the generators leave it: addresses, ports, and the header behind them.
pub record Packet : Type 0 where
  pub src_addr : ℕ
  pub dst_addr : ℕ
  pub src_port : ℕ
  pub dst_port : ℕ
  pub header : MessageHeader

-- What the generators read of the machine: `ip_src` and `ip_dst` as `inet_pton` gives them, and
-- the value that `rte_rdtsc` returns.
pub record Env : Type 0 where
  pub own_ip : ℕ
  pub default_ip : ℕ
  pub now : ℕ

abbrev pub port_write : ℕ
port_write = 8888

unfoldable pub generate_write_request_pkt :
    Env → (action lock_type lock_id txn_id ip_src ip_dst timestamp client_id : ℕ) → Packet
unfolding htonl htons
generate_write_request_pkt env action lock_type lock_id txn_id ip_src ip_dst timestamp client_id =
    record {
      src_addr = if ip_src == 0 then env.own_ip else ip_src;
      dst_addr = if ip_dst == 0 then env.default_ip else ip_dst;
      src_port = htons ((port_write + txn_id % 128) % 2 ^ 16);
      dst_port = htons port_write;
      header = record {
        recirc_flag = 0;
        op_type = action % 256;
        mode = lock_type % 256;
        client_id = client_id % 256;
        txn_id = htonl txn_id;
        lock_id = htonl lock_id;
        payload = if timestamp == 0 then env.now else timestamp;
      };
    }
