-- ===== src/Combined/Handling.antt =====
-- dpdk_code/client_code/simple_socket.c: what `role` decides in a round of `np_client_rx_loop`.
use net_lock.Common.{ℕ, List, [], Option, some, ◌==◌, ltb, if◌then◌else◌}
use net_lock.Wire.{Env, Packet}
use net_lock.Client.{Config}
use net_lock.Combined.{Node, Arrival, role_client, with_client, with_server}
use net_lock.Combined.Asking.{ask, is_tpcc, drain_if_due}
use net_lock.Combined.Serving.{serve}

-- The handling of a packet.
unfoldable pub handle :
    (role : ℕ) → Config → (cur_tsc : ℕ) → Arrival → Node → Option (Node × List Packet)
unfolding ask serve
handle role cfg cur_tsc a n =
    if role == role_client
    then with_client n (ask a.env cfg cur_tsc a.has_memory a.frame n.client)
    else with_server n (serve a.env a.has_memory a.stale a.frame n.server)

-- The drain at the start of a round.
unfoldable pub drain :
    (role : ℕ) → Env → Config → (cur_tsc : ℕ) → Node → Option (Node × List Packet)
unfolding drain_if_due
drain role env cfg cur_tsc n =
    if is_tpcc cfg
    then some (n, [])
    else if ltb 0 cfg.think_time
    then if role == role_client
      then with_client n (drain_if_due env cfg cur_tsc n.client)
      else some (n, [])
    else some (n, [])
