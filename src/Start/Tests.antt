-- ===== src/Start/Tests.antt =====
-- A lock server of four receiving cores as machine 3, its switch set up by a file that is not there.
use net_lock.Common.{length, ◌≡◌, refl, List, [], ◌∷◌, some, none, true, false, ltb}
use net_lock.Args.{pos, receivers, server_pool, machine, Argument, Settings, parse_option}
use net_lock.Args.Accepted.{argument}
use net_lock.Start.{Address, Machine, Program, runs, main}

abbrev pub defaults : Settings
defaults = record {
  num_of_cores = 8;
  batch_size = 1;
  timeout_slot = 400;
  server_node_num = 1;
  client_node_num = 8;
  think_time = 0;
  task_id = 115;
  slot_num = 130000;
  memory_management = 0;
  lock_num = 1;
  client_num = 1;
  role = 99;
  data_transfer_mode = 97;
  wpkts_send_limit_ms = 10000;
  warehouse = 1;
  average_interval = 64;
  enabled_port_mask = 1;
  contention_degree = 2;
  machine_id = 0;
  benchmark = 115;
  extensive_locks = 20;
  obj_per_lock = 150;
  n_rcv_cores = 0;
  zipf_alpha = 90;
  dir_prefix = [];
}

abbrev line : List Argument
line =
    argument receivers (pos 4) 52 (52 ∷ [])
    ∷ argument server_pool (pos 0) 0 []
    ∷ argument machine (pos 3) 51 (51 ∷ [])
    ∷ []

abbrev pub bare : Machine
bare = record {
  eal = some line;
  dpdk = record {
    has_pool = true;
    dev_count = 1;
    max_eth_ports = 32;
    lcore_is_enabled = λ i. ltb i 4;
    fails = λ _. false;
  };
  files = λ _. record { line_c = none; lines = [] };
  batch_file = record { line_c = none; lines = [] };
  has_memory = true;
  unset_i = 0;
  unset_lk_idx = 0;
  fresh_queues = λ _. [];
  fresh_map = λ _. 0;
  inet_pton = λ (a : Address). a.byte3;
  stray_ip = λ _. 0;
  overrun = λ bytes s. s;
}

unfoldable pub started : (x : Program) × (main bare defaults ≡ runs x)
unfolding main parse_option
started = (_, refl)

abbrev pub program : Program
program = started.0

-- It takes the address of machine 3.
program_ip : (program.ip_src_pton ≡ 3) × (length program.cores ≡ 4)
unfolding started
program_ip = (refl, refl)
