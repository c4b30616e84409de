-- ===== src/Layout/Tests.antt =====
-- The layout of three locks at a TPC-C server.
use net_lock.Common.{ℕ, ◌≡◌, refl, List, [], ◌∷◌, some, true, ltb, if◌then◌else◌, arith}
use net_lock.Wire.{Env}
use net_lock.Server.{Server, Frame, Round, max_lock_num, failure_notification}
use net_lock.Server.Process.{process}
use net_lock.Args.{Settings}
use net_lock.Layout.{Layout, Line, File, Lengths, get_queue_len_in_switch, layout_file}
use net_lock.Layout.Reading.{length_of, get_queue_len_in_switch-failure}

abbrev settings : Settings
settings = record {
  num_of_cores = 8;
  batch_size = 1;
  timeout_slot = 400;
  server_node_num = 1;
  client_node_num = 8;
  think_time = 0;
  task_id = 112;
  slot_num = 130000;
  memory_management = 98;
  lock_num = 1;
  client_num = 1;
  role = 99;
  data_transfer_mode = 97;
  wpkts_send_limit_ms = 10000;
  warehouse = 1;
  average_interval = 64;
  enabled_port_mask = 1;
  contention_degree = 2;
  machine_id = 0;
  benchmark = 116;
  extensive_locks = 7000000;
  obj_per_lock = 1;
  n_rcv_cores = 0;
  zipf_alpha = 90;
  dir_prefix = [];
}

abbrev lines : List Line
lines =
    record { lk_idx = 0; lk_length = 8 }
    ∷ record { lk_idx = 4; lk_length = 16 }
    ∷ record { lk_idx = 0; lk_length = 9 }
    ∷ []

abbrev files : Layout → File
files _ = record { line_c = some 3; lines = lines }

abbrev zeros : Lengths
zeros = record { len_in_switch = λ _. 0; secondary_locks = [] }

abbrev env : Env
env = record { own_ip = 7; default_ip = 9; now = 1000 }

abbrev round : Round
round = record {
  has_memory = true;
  stale = record { mode = 0; client_id = 0; txn_id = 0; ip_src = 0; timestamp = 0 };
}

abbrev server : Server
server = record {
  queues = λ _. record { mode = 0; client_id = 3; txn_id = 1; ip_src = 9; timestamp = 5 } ∷ [];
  num_ex = λ _. 0;
  num_sh = λ _. 1;
  len_in_switch = λ _. 0;
  secondary_locks = [];
  rx = 0;
  rx_read = 0;
  rx_write = 0;
}

abbrev notification : Frame
notification = record {
  mem_role = failure_notification;
  src2 = 10;
  src3 = 1;
  src4 = 0;
  src5 = 3;
  header = record {
    recirc_flag = 0;
    op_type = 0;
    mode = 0;
    client_id = 3;
    txn_id = 0;
    lock_id = 0;
    payload = 0;
  };
}

get_queue_len_in_switch-failure_example :
    (l' : Lengths) × (server' : Server) × (get_queue_len_in_switch settings 0 0 files zeros
      ≡ some l')
    × ((lock : ℕ)
        → l'.len_in_switch lock ≡ length_of lines (if ltb lock max_lock_num then 0 else 0) lock)
    × (process env round notification (record server { secondary_locks = l'.secondary_locks })
        ≡ some (server', []))
    × (server'.queues ≡ server.queues)
unfolding layout_file
get_queue_len_in_switch-failure_example =
    get_queue_len_in_switch-failure settings 0 0 files zeros env round notification server refl refl
      (omega arith, (omega arith, (omega arith, tt))) refl refl
