-- ===== src/Client/Cores.antt =====
-- The sending cores of dpdk_code/client_code/client.c: which clients `main` gives to each of them, and
-- a round of `np_client_tx_write_loop` over its clients.
pub mod Shares
mod Tests
use net_lock.Common.{
  ℕ, zero, suc, ◌+◌, ◌-◌, ◌*◌, ◌/◌, ◌%◌, ◌^◌, List, [], ◌∷◌, ◌++◌, map, Option, none, some, Bool,
  true, false, ◌==◌, ◌&&◌, leb, ltb, if◌then◌else◌,
}
use net_lock.Wire.{Env, Packet, htons}
use net_lock.Client.{Config, Client}
use net_lock.Client.Transaction.{Clock}
use net_lock.Client.Visit.{Trace, Sender, Visited, visit}

-- `client_index_s` and `client_index_e`, of type `uint8_t`, of the sending core number `k` of `m`.
-- The division and the difference are of `uint32_t`.
unfoldable pub client_index_s : (client_num m k : ℕ) → ℕ
client_index_s client_num m k = k % 256 * client_num % 2 ^ 32 / m % 256

unfoldable pub client_index_e : (client_num m k : ℕ) → ℕ
client_index_e client_num m k =
    ((k + 1) % 256 * client_num % 2 ^ 32 / m + 2 ^ 32 - 1) % 2 ^ 32 % 256

abbrev pub and_then : {S : Type 0} → Option S → (S → Option S) → Option S
and_then none f = none
and_then (some s) f = f s

-- `for (uint8_t cid = ...; cid <= e; cid++)` on fuel: `none` if it runs out, or if the body stops.
pub for_clients : {S : Type 0} → (fuel cid e : ℕ) → (ℕ → S → Option S) → S → Option S
for_clients zero cid e body s = none
for_clients (suc fuel) cid e body s =
    if leb cid e then and_then (body cid s) (for_clients fuel ((cid + 1) % 256) e body) else some s

-- A probe of the switch, as `generate_probe_pkt` makes it.
pub record ProbePacket : Type 0 where
  pub src_addr : ℕ
  pub dst_addr : ℕ
  pub src_port : ℕ
  pub dst_port : ℕ
  pub failure_status : ℕ

unfoldable pub generate_probe_pkt : Env → (port_probe ip_src_addr ip_dst_addr : ℕ) → ProbePacket
unfolding htons
generate_probe_pkt env port_probe ip_src_addr ip_dst_addr = record {
  src_addr = if ip_src_addr == 0 then env.own_ip else ip_src_addr;
  dst_addr = if ip_dst_addr == 0 then env.default_ip else ip_dst_addr;
  src_port = htons ((port_probe + 2 ^ 16 - 1) % 2 ^ 16);
  dst_port = htons (port_probe % 2 ^ 16);
  failure_status = 0;
}

-- What a sending core keeps from round to round, with the client's state.
pub record Sending : Type 0 where
  pub sender : Sender
  pub client : Client
  pub next_ms_tsc : ℕ
  pub probe_counter : ℕ

-- What is fixed before the loop; `probing` is `task_id == 'f'`.
pub record Pace : Type 0 where
  pub ms_tsc : ℕ
  pub wpkts_send_limit_ms : ℕ
  pub probing : Bool
  pub client_first : ℕ
  pub client_last : ℕ

-- A visit of one client, behind the packets of the visits before.
abbrev pub visit_next : Env → Config → Trace → (ℕ → Clock) → (cid : ℕ) → Visited → Option Visited
visit_next env cfg w clock cid (s, c, out) = elim (visit env cfg w (clock cid) cid s c) [
  | none ↦ none
  | some (s', c', out') ↦ some (s', c', out ++ out')
]

-- The budget of packets begins anew with each millisecond.
abbrev pub new_millisecond : Pace → (cur_tsc : ℕ) → Sending → Sending
new_millisecond p cur_tsc x =
    if ltb x.next_ms_tsc cur_tsc
    then record x {
      sender = record x.sender { pkts_send_ms = 0 };
      next_ms_tsc = (x.next_ms_tsc + p.ms_tsc) % 2 ^ 64;
    }
    else x

abbrev pub probe_limit : ℕ
probe_limit = 15000000

-- Every so many rounds, a probe.
abbrev pub probe_when_due : Env → Config → Pace → Sending → Sending × List ProbePacket
probe_when_due env cfg p x =
    if p.probing
    then (if ltb probe_limit (x.probe_counter + 1)
        then (
          record x { probe_counter = 0 },
          generate_probe_pkt env cfg.port_probe cfg.ip_src 0 ∷ [],
        )
        else (record x { probe_counter = x.probe_counter + 1 }, []))
    else (x, [])

abbrev pub ended :
    Sending → List ProbePacket → Option Visited → Option (Sending × List ProbePacket × List Packet)
ended x probes none = none
ended x probes (some (s, c, out)) = some (record x { sender = s; client = c }, probes, out)

-- A round of the loop. No core has more than 256 clients to visit.
unfoldable pub send_round :
    Env
    → Config
    → Trace
    → (ℕ → Clock)
    → Pace
    → (cur_tsc : ℕ) → Sending
    → Option (Sending × List ProbePacket × List Packet)
unfolding for_clients
send_round env cfg w clock p cur_tsc x0 =
    let x1 = new_millisecond p cur_tsc x0 in
    if ltb x1.sender.pkts_send_ms p.wpkts_send_limit_ms
    then (let (x2, probes) = probe_when_due env cfg p x1 in
        ended x2 probes (
          for_clients 257 p.client_first p.client_last (visit_next env cfg w clock)
            (x2.sender, x2.client, [])))
    else some (x1, [], [])
