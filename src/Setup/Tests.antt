-- ===== src/Setup/Tests.antt =====
-- A server with four cores and the first two of three ports.
use net_lock.Common.{◌≡◌, ltb, refl, List, [], ◌∷◌, true, false}
use net_lock.Setup.{Dpdk, Settings, Lcore, ready, all_calls, nc_init}
use net_lock.Setup.Queues.{Owns, nc_init-Owns}

abbrev dpdk : Dpdk
dpdk = record {
  has_pool = true;
  dev_count = 3;
  max_eth_ports = 32;
  lcore_is_enabled = λ i. ltb i 4;
  fails = λ _. false;
}

abbrev server : Settings
server = record { is_client = false; enabled_port_mask = 3; n_rcv_cores = 1 }

abbrev cores : List Lcore
cores =
    record { id = 0; vid = 0; port = 0; tx_queue_id = 0; rx_queue_list = 0 ∷ 1 ∷ 2 ∷ 3 ∷ [] }
    ∷ record { id = 1; vid = 1; port = 0; tx_queue_id = 1; rx_queue_list = 4 ∷ 5 ∷ 6 ∷ 7 ∷ [] }
    ∷ record { id = 2; vid = 2; port = 1; tx_queue_id = 0; rx_queue_list = 0 ∷ 1 ∷ 2 ∷ 3 ∷ [] }
    ∷ record { id = 3; vid = 3; port = 1; tx_queue_id = 1; rx_queue_list = 4 ∷ 5 ∷ 6 ∷ 7 ∷ [] }
    ∷ []

server-ready : nc_init dpdk server ≡ ready (0 ∷ 1 ∷ []) cores (all_calls 8 2 (0 ∷ 1 ∷ []))
unfolding nc_init
server-ready = refl

nc_init-Owns_example : Owns cores (all_calls 8 2 (0 ∷ 1 ∷ []))
nc_init-Owns_example =
    nc_init-Owns dpdk server (0 ∷ 1 ∷ []) cores (all_calls 8 2 (0 ∷ 1 ∷ [])) refl server-ready

-- A client with two receiving cores: both poll the first port, the second one queues that no call
-- sets up.
abbrev client : Settings
client = record { is_client = true; enabled_port_mask = 3; n_rcv_cores = 2 }

client_polls :
    nc_init dpdk client
    ≡ ready
        (0 ∷ 1 ∷ [])
        (record { id = 0; vid = 0; port = 0; tx_queue_id = 0; rx_queue_list = 0 ∷ 1 ∷ 2 ∷ 3 ∷ [] }
          ∷ record {
            id = 1;
            vid = 1;
            port = 0;
            tx_queue_id = 1;
            rx_queue_list = 4 ∷ 5 ∷ 6 ∷ 7 ∷ [];
          }
          ∷ record { id = 2; vid = 2; port = 1; tx_queue_id = 0; rx_queue_list = [] }
          ∷ record { id = 3; vid = 3; port = 1; tx_queue_id = 1; rx_queue_list = [] }
          ∷ [])
        (all_calls 4 2 (0 ∷ 1 ∷ []))
unfolding nc_init
client_polls = refl
