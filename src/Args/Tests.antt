-- ===== src/Args/Tests.antt =====
-- The command lines `-r 4 -e 8 -b t` and, for the client, the same with a `-P` behind it.
use net_lock.Common.{◌<◌, ◌≤◌, ◌≡◌, ◌⊎◌, inl, inr, refl, List, [], ◌∷◌, arith}
use net_lock.Args.{
  pos, receivers, emulated, workload, Argument, Settings, parsed, crashed, parse_option,
  nc_parse_args, sample_interval,
}
use net_lock.Args.Accepted.{argument, IsSane, cores_given, nc_parse_args-IsLegal}

-- The values that the variables have at the start.
abbrev defaults : Settings
defaults = record {
  num_of_cores = 8;
  batch_size = 1;
  timeout_slot = 400;
  server_node_num = 1;
  client_node_num = 8;
  think_time = 0;
  task_id = 115;
  slot_num = 130000;
  memory_management = 0;
  lock_num = 1;
  client_num = 1;
  role = 99;
  data_transfer_mode = 97;
  wpkts_send_limit_ms = 10000;
  warehouse = 1;
  average_interval = 64;
  enabled_port_mask = 1;
  contention_degree = 2;
  machine_id = 0;
  benchmark = 115;
  extensive_locks = 20;
  obj_per_lock = 150;
  n_rcv_cores = 0;
  zipf_alpha = 90;
  dir_prefix = [];
}

defaults-IsSane : IsSane defaults
defaults-IsSane = (omega arith, omega arith, omega arith, omega arith, omega arith, omega arith)

abbrev line : List Argument
line =
    argument receivers (pos 4) 52 (52 ∷ [])
    ∷ argument emulated (pos 8) 56 (56 ∷ [])
    ∷ argument workload (pos 0) 116 (116 ∷ [])
    ∷ []

nc_parse_args-IsLegal_example :
    ((s' : Settings) × (nc_parse_args parse_option line defaults ≡ (parsed s', sample_interval s'))
      × IsSane s'
      × (1 ≤ sample_interval s')
      × (s'.n_rcv_cores ≡ 4)
      × (0 < s'.n_rcv_cores))
    ⊎ ((cores_given line 0 ≡ 0) × (nc_parse_args parse_option line defaults ≡ (crashed, 0)))
nc_parse_args-IsLegal_example =
    nc_parse_args-IsLegal line defaults
      ((3, refl), ((7, refl), (inr (inr (inr (inr (inr (inl refl))))), tt))) defaults-IsSane
