-- ===== src/Start.antt =====
-- `main` of dpdk_code/lock_server_code/server.c up to the launch of the cores: the parts in turn, and
-- the globals that they leave. The Zipf state of `custom_init` is left out, which nothing reads.
pub mod Running
pub mod Clients
pub mod Launch
mod Tests
use net_lock.Common.{
  ℕ, zero, suc, ◌+◌, ◌-◌, List, [], Option, none, some, Bool, ◌==◌, ltb, leb, if◌then◌else◌,
}
use net_lock.LockQueue.{QueueNode}
use net_lock.Args.{
  Settings, Argument, Parsed, parsed, refused, crashed, parse_option, nc_parse_args,
}
use net_lock.Setup as Setup
use net_lock.Setup.{
  Dpdk, Initialised, Lcore, Call, ready, no_pool, no_ports, divides_by_zero,
  cores_not_multiple_of_ports, too_few_rx_queues, failed, all_ports_disabled, nc_init,
}
use net_lock.Layout.{Layout, File, Lengths, get_queue_len_in_switch}
use net_lock.Traces.BatchMap.{BatchFile, get_batch_map}
use net_lock.Server.{Server, max_lock_num}

-- An IP address by its four bytes.
pub record Address : Type 0 where
  pub byte0 : ℕ
  pub byte1 : ℕ
  pub byte2 : ℕ
  pub byte3 : ℕ

-- What the program finds: the arguments that `rte_eal_init` leaves, if it succeeds, DPDK, the files,
-- what unset variables and fresh memory hold, whether there is memory, and `inet_pton`. The code does
-- not look whether an entry of `ip_list` or of `failure_act` is one: `stray_ip` is what `ip_src_pton`
-- then holds, and `overrun` what so many bytes of `memset` behind `failure_act` do to the globals.
pub record Machine : Type 0 where
  pub eal : Option (List Argument)
  pub dpdk : Dpdk
  pub files : Layout → File
  pub batch_file : BatchFile
  pub has_memory : Bool
  pub unset_i : ℕ
  pub unset_lk_idx : ℕ
  pub fresh_queues : ℕ → List QueueNode
  pub fresh_map : ℕ → ℕ
  pub inet_pton : Address → ℕ
  pub stray_ip : (machine_id : ℕ) → ℕ
  pub overrun : (bytes : ℕ) → Server → Server

-- The globals when the cores are launched; `batch_map` is `none` while it is NULL.
pub record Program : Type 0 where
  pub settings : Settings
  pub latency_sample_interval : ℕ
  pub ip_src_pton : ℕ
  pub ip_dst_pton : ℕ
  pub batch_map : Option (ℕ → ℕ)
  pub server : Server
  pub cores : List Lcore
  pub calls : List Call

-- An exit for wrong arguments, an end of `nc_init`, something that the language leaves undefined, or
-- a program that runs.
pub data Started (P : Type 0) : Type 0 where
  invalid_eal : Started P
  invalid_arguments : Started P
  stopped : Initialised → Started P
  undefined : Started P
  runs : P → Started P

abbrev pub address_of : ℕ → Address
address_of n = record { byte0 = 10; byte1 = 1; byte2 = 0; byte3 = n }

-- `ip_list`: 10.1.0.1 to 10.1.0.12, and 10.1.0.100; `none` is behind it.
unfoldable pub ip_list : ℕ → Option Address
ip_list i =
    if ltb i 12 then some (address_of (i + 1)) else if i == 12 then some (address_of 100) else none

-- `ip_list[machine_id - 1]`, which is before the array for 0.
unfoldable pub own_address : (machine_id : ℕ) → Option Address
unfolding ip_list
own_address zero = none
own_address (suc i) = ip_list i

abbrev pub max_client_num : ℕ
max_client_num = 8

infixl 5 ◌>>=◌ ◌>>◌
abbrev pub ◌>>=◌ : {A B : Type 0} → Option A → (A → Option B) → Option B
none >>= f = none
some a >>= f = f a

abbrev pub ◌>>◌ : {B : Type 0} → Option (Unit {0}) → Option B → Option B
m >> k = m >>= λ _. k

abbrev pub guard : Bool → Option (Unit {0})
guard b = if b then some tt else none

-- `get_batch_map` on fresh memory, with task 'g' only.
abbrev pub batches : Machine → Settings → Option (Option (ℕ → ℕ))
batches m s =
    if s.task_id == 103
    then guard m.has_memory >> (get_batch_map m.batch_file m.fresh_map >>= λ map. some (some map))
    else some none

-- `ip_src_pton`, by the entry of `ip_list` that is copied.
abbrev pub own_ip : Machine → (machine_id : ℕ) → ℕ
own_ip m machine_id = elim (own_address machine_id) [
  | none ↦ m.stray_ip machine_id
  | some a ↦ m.inet_pton a
]

-- The globals before `memset`.
abbrev pub globals_of : Machine → Lengths → Server
globals_of m l = record {
  queues = m.fresh_queues;
  num_ex = λ _. 0;
  num_sh = λ _. 0;
  len_in_switch = l.len_in_switch;
  secondary_locks = l.secondary_locks;
  rx = 0;
  rx_read = 0;
  rx_write = 0;
}

-- `memset(failure_act, FAILURE_NORMAL, client_num)`, as the lock server sees it.
unfoldable pub after_memset : Machine → (client_num : ℕ) → Server → Server
after_memset m client_num s =
    if leb client_num max_client_num then s else m.overrun (client_num - max_client_num) s

-- Behind it, `queue_init` on every queue but the last of fresh memory.
unfoldable pub server_of : Machine → (client_num : ℕ) → Lengths → Server
unfolding after_memset
server_of m client_num l = record (after_memset m client_num (globals_of m l)) {
  queues = λ i. if ltb i max_lock_num then [] else m.fresh_queues i;
}

abbrev pub no_lengths : Lengths
no_lengths = record { len_in_switch = λ _. 0; secondary_locks = [] }

-- From `get_queue_len_in_switch` to the launch; `none` is undefined. `ip_list[12]` is the last entry.
unfoldable pub prepare :
    Machine → Settings → (latency_sample_interval : ℕ) → List Lcore → List Call → Option Program
unfolding get_queue_len_in_switch own_address get_batch_map server_of
prepare m s interval cores calls = do
  l ← get_queue_len_in_switch s m.unset_i m.unset_lk_idx m.files no_lengths
  map ← batches m s
  guard m.has_memory
  some (record {
    settings = s;
    latency_sample_interval = interval;
    ip_src_pton = own_ip m s.machine_id;
    ip_dst_pton = m.inet_pton (address_of 100);
    batch_map = map;
    server = server_of m s.client_num l;
    cores = cores;
    calls = calls;
  })

-- What `nc_init` reads of the settings; the character 'c' is the client's role.
abbrev pub setup_of : Settings → Setup.Settings
setup_of s = record {
  is_client = s.role == 99;
  enabled_port_mask = s.enabled_port_mask;
  n_rcv_cores = s.n_rcv_cores;
}

abbrev pub or_undefined : {P : Type 0} → Option P → Started P
or_undefined none = undefined
or_undefined (some x) = runs x

-- What comes behind `nc_init`, of the settings, the interval between samples, the cores, and the calls
-- that were made.
abbrev pub Preparation : Type 0 → Type 0
Preparation P = Settings → ℕ → List Lcore → List Call → Option P

abbrev pub after_init :
    {P : Type 0}
    → Preparation P
    → Settings
    → (latency_sample_interval : ℕ) → Initialised
    → Started P
after_init f s interval (ready ports cores calls) = or_undefined (f s interval cores calls)
after_init f s interval no_pool = stopped no_pool
after_init f s interval no_ports = stopped no_ports
after_init f s interval divides_by_zero = stopped divides_by_zero
after_init f s interval cores_not_multiple_of_ports = stopped cores_not_multiple_of_ports
after_init f s interval too_few_rx_queues = stopped too_few_rx_queues
after_init f s interval (failed c) = stopped (failed c)
after_init f s interval all_ports_disabled = stopped all_ports_disabled

abbrev pub after_args :
    {P : Type 0} → Dpdk → Preparation P → Parsed → (latency_sample_interval : ℕ) → Started P
after_args dpdk f (parsed s) interval = after_init f s interval (nc_init dpdk (setup_of s))
after_args dpdk f refused interval = invalid_arguments
after_args dpdk f crashed interval = undefined

abbrev pub after_eal :
    {P : Type 0}
    → Dpdk
    → (Argument → Settings → Parsed)
    → Preparation P
    → Settings
    → Option (List Argument)
    → Started P
after_eal dpdk parse f s none = invalid_eal
after_eal dpdk parse f s (some args) =
    let r = nc_parse_args parse args s in after_args dpdk f r.0 r.1

unfoldable pub main : Machine → (defaults : Settings) → Started Program
unfolding nc_parse_args nc_init prepare
main m defaults = after_eal m.dpdk parse_option (prepare m) defaults m.eal
