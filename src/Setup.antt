-- ===== src/Setup.antt =====
-- `nc_init` of dpdk_code/lock_server_code/include/util.h: which ports are used, which queues are set
-- up, and which core works on which of them. The client's copy has the same text.
pub mod Assigned
pub mod Queues
mod Tests
use net_lock.Common.{
  ℕ, zero, suc, ◌+◌, ◌-◌, ◌*◌, ◌/◌, ◌%◌, ◌^◌, List, [], ◌∷◌, ◌++◌, map, Option, none, some, Bool,
  true, false, ◌==◌, ◌&&◌, leb, ltb, if◌then◌else◌, length, get_elem?,
}

-- What DPDK is asked to do for a port.
pub data Call : Type 0 where
  configure : (port rx_queues tx_queues : ℕ) → Call
  rx_queue_setup : (port queue : ℕ) → Call
  tx_queue_setup : (port queue : ℕ) → Call
  start_port : (port : ℕ) → Call

-- What DPDK answers: whether there is a pool, how many ports it has found and can have, which cores
-- run, and which calls fail.
pub record Dpdk : Type 0 where
  pub has_pool : Bool
  pub dev_count : ℕ
  pub max_eth_ports : ℕ
  pub lcore_is_enabled : ℕ → Bool
  pub fails : Call → Bool

pub record Settings : Type 0 where
  pub is_client : Bool
  pub enabled_port_mask : ℕ
  pub n_rcv_cores : ℕ

-- `lcore_conf` of a core that runs, without its packets to send.
pub record Lcore : Type 0 where
  pub id : ℕ
  pub vid : ℕ
  pub port : ℕ
  pub tx_queue_id : ℕ
  pub rx_queue_list : List ℕ

-- The ends of `nc_init`: an exit with its reason, a division by 0, or a program that is set up.
pub data Initialised : Type 0 where
  no_pool : Initialised
  no_ports : Initialised
  divides_by_zero : Initialised
  cores_not_multiple_of_ports : Initialised
  too_few_rx_queues : Initialised
  failed : Call → Initialised
  all_ports_disabled : Initialised
  ready : (ports : List ℕ) → List Lcore → List Call → Initialised

abbrev pub nc_max_lcores : ℕ
nc_max_lcores = 32

abbrev pub rx_queues_per_lcore : ℕ
rx_queues_per_lcore = 4

-- `i`, `i + 1`, ..., as many as the first argument says.
abbrev pub range_from : (n i : ℕ) → List ℕ
range_from zero i = []
range_from (suc n) i = i ∷ range_from n (i + 1)

abbrev pub select : (ℕ → Bool) → List ℕ → List ℕ
select p [] = []
select p (i ∷ is) = let rest = select p is in if p i then i ∷ rest else rest

-- `enabled_port_mask & (1 << i)`.
abbrev pub in_mask : (mask i : ℕ) → Bool
in_mask mask i = mask / 2 ^ i % 2 == 1

-- An array that is 0 behind its entries.
abbrev pub get_or : ℕ → List ℕ → ℕ → ℕ
get_or d [] i = d
get_or d (x ∷ xs) zero = x
get_or d (x ∷ xs) (suc i) = get_or d xs i

-- The locals of the loop over the cores.
pub record Offsets : Type 0 where
  pub portid_offset : ℕ
  pub rx_queue_id : ℕ
  pub tx_queue_id : ℕ
  pub vid : ℕ

-- How many queues core `i` receives from.
abbrev pub n_rx_queue : Settings → ℕ → ℕ
n_rx_queue s i = if s.is_client && leb s.n_rcv_cores i then 0 else rx_queues_per_lcore

abbrev pub next_offsets : (tx_queues_per_port n_rx : ℕ) → Offsets → Offsets
next_offsets tx_queues_per_port n_rx o =
    if (o.tx_queue_id + 1) % tx_queues_per_port == 0
    then record {
      portid_offset = o.portid_offset + 1;
      rx_queue_id = 0;
      tx_queue_id = 0;
      vid = o.vid + 1;
    }
    else record {
      portid_offset = o.portid_offset;
      rx_queue_id = o.rx_queue_id + n_rx;
      tx_queue_id = o.tx_queue_id + 1;
      vid = o.vid + 1;
    }

-- The cores that run, in order.
pub assign : Settings → (ports : List ℕ) → (tx_queues_per_port : ℕ) → List ℕ → Offsets → List Lcore
assign s ports tx_queues_per_port [] o = []
assign s ports tx_queues_per_port (i ∷ is) o =
    record {
      id = i;
      vid = o.vid;
      port = get_or 0 ports o.portid_offset;
      tx_queue_id = o.tx_queue_id;
      rx_queue_list = range_from (n_rx_queue s i) o.rx_queue_id;
    }
    ∷ assign s ports tx_queues_per_port is (next_offsets tx_queues_per_port (n_rx_queue s i) o)

abbrev pub port_calls : (rx_queues tx_queues port : ℕ) → List Call
port_calls rx_queues tx_queues port =
    configure port rx_queues tx_queues
    ∷ (map (rx_queue_setup port) (range_from rx_queues 0)
        ++ (map (tx_queue_setup port) (range_from tx_queues 0) ++ start_port port ∷ []))

abbrev pub all_calls : (rx_queues tx_queues : ℕ) → List ℕ → List Call
all_calls rx_queues tx_queues [] = []
all_calls rx_queues tx_queues (port ∷ ports) =
    port_calls rx_queues tx_queues port ++ all_calls rx_queues tx_queues ports

-- The first call that fails stops the program.
abbrev pub first_failed : (Call → Bool) → List Call → Option Call
first_failed fails [] = none
first_failed fails (c ∷ cs) = let rest = first_failed fails cs in if fails c then some c else rest

abbrev pub rx_queues_per_port : Settings → (n_lcores n_ports : ℕ) → ℕ
rx_queues_per_port s n_lcores n_ports =
    (if s.is_client
      then rx_queues_per_lcore * s.n_rcv_cores % 2 ^ 32
      else rx_queues_per_lcore * n_lcores)
    / n_ports

-- After the ports and the cores are known.
pub set_up_ports : Dpdk → Settings → (ports cores : List ℕ) → Initialised
unfolding assign
set_up_ports dpdk s ports cores =
    let n_ports = length ports in
    let rx = rx_queues_per_port s (length cores) n_ports in
    let tx = length cores / n_ports in
    let calls = all_calls rx tx ports in
    if n_ports == 0
    then divides_by_zero
    else if length cores % n_ports == 0
    then (if ltb rx rx_queues_per_lcore
        then too_few_rx_queues
        else elim (first_failed dpdk.fails calls) [
          | some c ↦ failed c
          | none ↦
              if n_ports == 0
              then all_ports_disabled
              else ready ports
                  (assign s ports tx cores
                    (record { portid_offset = 0; rx_queue_id = 0; tx_queue_id = 0; vid = 0 }))
                  calls
        ])
    else cores_not_multiple_of_ports

unfoldable pub nc_init : Dpdk → Settings → Initialised
unfolding set_up_ports
nc_init dpdk s =
    let n_total =
      if ltb dpdk.max_eth_ports dpdk.dev_count then dpdk.max_eth_ports else dpdk.dev_count in
    if dpdk.has_pool
    then (if dpdk.dev_count == 0
        then no_ports
        else set_up_ports dpdk s (select (in_mask s.enabled_port_mask) (range_from n_total 0))
            (select dpdk.lcore_is_enabled (range_from nc_max_lcores 0)))
    else no_pool
