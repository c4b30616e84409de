-- ===== src/Start/Clients.antt =====
-- `main` of dpdk_code/client_code/client.c up to the launch of the cores: the parts that it shares with
-- the lock server's, the traces of the clients, core by core, and their transactions.
pub mod Loading
pub mod Ready
mod Tests
use net_lock.Common.{
  ℕ, zero, suc, ◌+◌, ◌-◌, List, [], ◌∷◌, Option, none, some, Bool, true, false, ◌==◌, ltb, leb,
  if◌then◌else◌, write, length,
}
use net_lock.Args.{Settings, parse_client_option, nc_parse_args}
use net_lock.Setup.{Lcore, Call, nc_init}
use net_lock.Client.{Txn, Client, failure_normal, max_client_num}
use net_lock.Client.Cores.{and_then, client_index_s, client_index_e}
use net_lock.Traces.{Setup, Loaded}
use net_lock.Traces.Files.{TraceFile, Source, trace_file, setup_of, load_file}
use net_lock.Start.{
  Machine, Preparation, Started, own_address, own_ip, batches, address_of, after_eal, ◌>>=◌, ◌>>◌,
}

-- The arrays of the traces and `locks_each_txn`, by client.
abbrev pub Loads : Type 0
Loads = ℕ → Loaded

abbrev pub no_loads : Loads
no_loads _ = record { entries = []; locks = λ _. 0 }

-- A transaction that no client has begun.
abbrev pub new_txn : Txn
new_txn = record {
  queue = [];
  txn_s = 0;
  txn_r = 0;
  locks = 0;
  num_retries = 0;
  deadlocked = false;
  finished = false;
  begin_time = 0;
  refresh_time = 0;
  refresh_time_failure = 0;
  finish_time = 0;
}

-- The globals that the loops work on, which are 0.
abbrev pub no_client : Client
no_client = record {
  txns = λ _ _. new_txn;
  busy = λ _ _. false;
  failure_act = λ _. 0;
  detect_failure = λ _. 0;
  last_failure_status = 0;
  think_queue = [];
  last_drain_tq_tsc = 0;
  latency = record { max = 0; num = 0; total = 0; overflow = 0; bin = λ _. 0 };
  samples = [];
  sample_start = false;
  rx = 0;
  rx_read = 0;
  rx_write = 0;
  txn_count = 0;
}

-- What the client finds: the machine, the trace files, and what so many bytes of `memset` behind
-- `failure_act` do to the globals.
pub record ClientMachine : Type 0 where
  pub machine : Machine
  pub trace_files : TraceFile → Source
  pub overrun : (bytes : ℕ) → Loads × Client → Loads × Client

-- `memset(failure_act, FAILURE_NORMAL, client_num)`.
unfoldable pub after_memset : ClientMachine → (client_num : ℕ) → Loads × Client → Loads × Client
after_memset m client_num (loads, c) =
    let set : Loads × Client = (
      loads,
      record c {
        failure_act = λ cid. if ltb cid client_num then failure_normal else c.failure_act cid;
      },
    ) in
    if leb client_num max_client_num then set else m.overrun (client_num - max_client_num) set

-- `get_traces` for the client `j`, whose arrays have `max_client_num` places.
unfoldable pub load_client :
    ClientMachine → Settings → Setup → (n_lcores j : ℕ) → Loads → Option Loads
unfolding load_file trace_file write
load_client m s u n_lcores j loads =
    if ltb j max_client_num
    then elim (load_file m.machine.has_memory u (m.trace_files (trace_file s n_lcores j))
        (loads j)) [ none ↦ none | some l ↦ some (write loads j l) ]
    else none

-- `for (int j = ...; j <= ...; j++)`, by the rounds and the first client.
unfoldable pub load_clients : (ℕ → Loads → Option Loads) → (rounds j : ℕ) → Loads → Option Loads
load_clients load zero j loads = some loads
load_clients load (suc n) j loads = and_then (load j loads) (load_clients load n (j + 1))

-- `for (int i = n_rcv_cores; i < n_lcores; i++)`, by the rounds left, where `k` is `i - n_rcv_cores`
-- and `m` is `n_lcores - n_rcv_cores`.
unfoldable pub load_cores :
    (ℕ → Loads → Option Loads) → (client_num m rounds k : ℕ) → Loads → Option Loads
unfolding load_clients client_index_s client_index_e
load_cores load n m zero k loads = some loads
load_cores load n m (suc rounds) k loads =
    let first = client_index_s n m k in
    and_then (load_clients load (client_index_e n m k + 1 - first) first loads)
      (load_cores load n m rounds (k + 1))

-- `txn_queue_init` on each queue, and what a receiving core sets at its first time stamp.
abbrev pub client_of : Loads → Client → (cur_tsc : ℕ) → Client
client_of loads c cur_tsc = record c {
  txns = λ cid txn. record (c.txns cid txn) { queue = []; locks = (loads cid).locks txn };
  think_queue = [];
  last_drain_tq_tsc = cur_tsc;
}

-- The globals when the cores are launched.
pub record ClientProgram : Type 0 where
  pub settings : Settings
  pub latency_sample_interval : ℕ
  pub ip_src_pton : ℕ
  pub ip_dst_pton : ℕ
  pub loads : Loads
  pub client : (cur_tsc : ℕ) → Client
  pub cores : List Lcore
  pub calls : List Call

-- From the addresses to the launch; `none` is undefined. With no sending core the loop has no round.
unfoldable pub prepare_client : ClientMachine → Preparation ClientProgram
unfolding own_address load_client load_cores after_memset
prepare_client m s interval cores calls = do
  let globals = after_memset m s.client_num (no_loads, no_client)
  map ← batches m.machine s
  let senders = length cores - s.n_rcv_cores
  loads ←
      load_cores (load_client m s (setup_of s map) (length cores)) s.client_num senders senders 0
        globals.0
  some (record {
    settings = s;
    latency_sample_interval = interval;
    ip_src_pton = own_ip m.machine s.machine_id;
    ip_dst_pton = m.machine.inet_pton (address_of 100);
    loads = loads;
    client = client_of loads globals.1;
    cores = cores;
    calls = calls;
  })

unfoldable pub main : ClientMachine → (defaults : Settings) → Started ClientProgram
unfolding nc_parse_args nc_init prepare_client
main m defaults =
    after_eal m.machine.dpdk parse_client_option (prepare_client m) defaults m.machine.eal
