-- ===== src/Server/Process.antt =====
-- The dispatch of `np_client_rx_loop` on one received packet.
use net_lock.Common.{ℕ, [], List, Option, none, some, ◌==◌, ltb, if◌then◌else◌}
use net_lock.Wire.{Env, Packet, ntohl, acquire_lock, release_lock}
use net_lock.Server.{
  Frame, Round, Server, primary_backup, secondary_backup, failure_notification, max_lock_num, add64,
  request_of, enqueue_request, acquire_primary, release_primary, release_secondary, reset_secondary,
}

-- The end of the round: `tput_stat[lcore_id].rx += 1`.
abbrev pub finish : Server × List Packet → Server × List Packet
finish (s, out) = (record s { rx = add64 s.rx 1 }, out)

-- The code indexes its arrays by the packet's lock number unchecked: `none` is an access outside.
abbrev pub within : ℕ → Server × List Packet → Option (Server × List Packet)
within lock r = if ltb lock max_lock_num then some (finish r) else none

unfoldable pub process : Env → Round → Frame → Server → Option (Server × List Packet)
unfolding ntohl request_of enqueue_request acquire_primary release_primary release_secondary
    reset_secondary
process env round f s =
    let lock = ntohl f.header.lock_id in
    let n = request_of f in
    if f.mem_role == failure_notification
    then some (finish (reset_secondary s.secondary_locks s, []))
    else if f.header.op_type == acquire_lock
    then if f.mem_role == secondary_backup
      then within lock (enqueue_request round.has_memory lock n s, [])
      else if f.mem_role == primary_backup
      then within lock (acquire_primary env round.has_memory lock n s)
      else some (finish (s, []))
    else if f.header.op_type == release_lock
    then if f.mem_role == secondary_backup
      then within lock (release_secondary env round.stale lock s)
      else if f.mem_role == primary_backup
      then within lock (release_primary env round.stale lock s)
      else some (finish (s, []))
    else some (finish (s, []))
