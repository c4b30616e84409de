-- ===== src/Transmit.antt =====
-- dpdk_code/lock_server_code/include/util.h: the table of packets that a core has ready to send.
-- The network card takes a first part of what it is offered.
pub mod Table
pub mod Burst
mod Tests
use net_lock.Common.{
  ℕ, zero, suc, ◌+◌, ◌-◌, ◌%◌, ◌^◌, List, [], ◌∷◌, ◌++◌, Option, none, some, ◌==◌, ltb,
  if◌then◌else◌, length, take,
}
use net_lock.Wire.{Packet}

abbrev pub nc_max_burst_size : ℕ
nc_max_burst_size = 32

-- `tx_mbufs` of a core, its counters `tx` and `dropped`, and what has become of its packets.
pub record Core : Type 0 where
  pub table : List Packet
  pub tx : ℕ
  pub dropped : ℕ
  pub sent : List Packet
  pub freed : List Packet

-- `rte_eth_tx_burst`: how many of the offered packets the card takes.
abbrev pub Card : Type 0
Card = List Packet → ℕ

abbrev pub get_elem? : List Packet → ℕ → Option Packet
get_elem? [] i = none
get_elem? (p ∷ ps) zero = some p
get_elem? (p ∷ ps) (suc i) = get_elem? ps i

abbrev pub and_free : Option Packet → List Packet → List Packet
and_free none ps = ps
and_free (some p) ps = p ∷ ps

-- `do { rte_pktmbuf_free(m_table[ret]); } while (++ret < n)`, by the rounds that are left.
unfoldable pub free_loop : ℕ → ℕ → List Packet → List Packet
free_loop zero ret table = []
free_loop (suc rounds) ret table = and_free (get_elem? table ret) (free_loop rounds (ret + 1) table)

unfoldable pub send_pkt_burst : Card → Core → Core
unfolding free_loop
send_pkt_burst card c =
    let n = length c.table in
    let ret = card c.table in
    record {
      table = [];
      tx = (c.tx + ret) % 2 ^ 64;
      dropped = if ltb ret n then (c.dropped + (n - ret)) % 2 ^ 64 else c.dropped;
      sent = c.sent ++ take ret c.table;
      freed = if ltb ret n then c.freed ++ free_loop (n - ret) ret c.table else c.freed;
    }

-- A packet goes to the end of the table, which is sent when `limit` packets stand in it; `none` is
-- a write behind the end of `m_table`.
unfoldable pub put_packet : Card → ℕ → Packet → Core → Option Core
unfolding send_pkt_burst
put_packet card limit p c =
    if ltb (length c.table) nc_max_burst_size
    then (let c' : Core = record c { table = c.table ++ p ∷ [] } in
        some (if length c'.table == limit then send_pkt_burst card c' else c'))
    else none

unfoldable pub enqueue_pkt : Card → Packet → Core → Option Core
unfolding put_packet
enqueue_pkt card p c = put_packet card nc_max_burst_size p c

unfoldable pub acquire_enqueue_pkt : Card → Packet → (locks_per_txn : ℕ) → Core → Option Core
unfolding put_packet
acquire_enqueue_pkt card p locks_per_txn c = put_packet card locks_per_txn p c

-- Several packets in a row.
unfoldable pub each : (Packet → Core → Option Core) → List Packet → Core → Option Core
each put [] c = some c
each put (p ∷ ps) c = elim (put p c) [ none ↦ none | some c' ↦ each put ps c' ]
