-- ===== src/Traces/Files.antt =====
-- `get_traces` of dpdk_code/client_code/include/new_order.h as a whole: which file it reads for a
-- client, and what it makes of it.
use net_lock.Common.{
  ℕ, ◌+◌, ◌-◌, ◌*◌, ◌%◌, ◌^◌, List, [], ◌∷◌, Option, none, some, Bool, true, false, ◌==◌, ◌||◌,
  ◌&&◌, ltb, if◌then◌else◌, take,
}
use net_lock.Args.{Settings}
use net_lock.Client.{max_lock_num, max_txn_num, tpcc_benchmark, tpcc_uniform_benchmark}
use net_lock.Traces.{Row, Setup, Entry, Loaded, get_traces}

-- The names of files that it prints into `filename`; `unset` is what the local holds without one.
pub data TraceFile : Type 0 where
  unset : TraceFile
  micro_shared : (machine : ℕ) → TraceFile
  queue_size_2 : (machine degree lc : ℕ) → TraceFile
  contention_shuffle : (lock_num machine client : ℕ) → TraceFile
  no_table_lock_10v2 no_table_lock_6v6 : (warehouse trace : ℕ) → TraceFile

-- `(machine_id - 1) * (n_lcores - n_rcv_cores) + lcore_id + first`, in 32 bits.
abbrev pub trace_number : Settings → (n_lcores client first : ℕ) → ℕ
trace_number s n_lcores client first =
    ((s.machine_id + 2 ^ 32 - 1) % 2 ^ 32 * ((n_lcores + 2 ^ 32 - s.n_rcv_cores) % 2 ^ 32) % 2 ^ 32
      + client
      + first)
    % 2 ^ 32

unfoldable pub trace_file : Settings → (n_lcores client : ℕ) → TraceFile
trace_file s n_lcores client =
    let server10 = no_table_lock_10v2 s.warehouse (trace_number s n_lcores client 9) in
    if s.benchmark == 115
    then micro_shared s.machine_id
    else if s.benchmark == 120
    then if s.contention_degree == 1
      then queue_size_2 s.machine_id s.contention_degree ((client + 6) % 2 ^ 32)
      else if s.contention_degree == 12
      then contention_shuffle s.lock_num s.machine_id client
      else unset
    else if s.benchmark == tpcc_uniform_benchmark
    then server10
    else if s.benchmark == tpcc_benchmark
    then if s.task_id == 113
      then no_table_lock_6v6 s.warehouse (trace_number s n_lcores client 25)
      else server10
    else unset

-- Of a file that opens: whether `fgets` gives the two lines at its head, and the rows that follow.
pub record Contents : Type 0 where
  pub has_head : Bool
  pub rows : List Row

-- What the shell and `fopen` give: the number of lines that `wc` counts, if the command runs and
-- prints one, and the contents, if the file opens.
pub record Source : Type 0 where
  pub line_c : Option ℕ
  pub opened : Option Contents

abbrev pub setup_of : Settings → Option (ℕ → ℕ) → Setup
setup_of s map = record {
  uniform = s.benchmark == tpcc_uniform_benchmark;
  batched = s.task_id == 103;
  batch_map = elim map [ none ↦ λ object. 0 | some f ↦ f ];
}

-- Every row that is not passed over is for an object of the batch map, where that is read.
abbrev pub within_map : Setup → List Row → Bool
within_map u [] = true
within_map u (r ∷ rows) =
    (u.uniform
      || (if u.batched
          then (r.action_type == 1) || ltb r.target_obj_idx (max_lock_num + 1)
          else true))
    && within_map u rows

-- Every request is of a transaction that `locks_each_txn` has.
abbrev pub within_counts : List Entry → Bool
within_counts [] = true
within_counts (e ∷ es) =
    (if e.action_type == 0 then ltb e.txn_id max_txn_num else true) && within_counts es

abbrev pub no_entries : List Entry → Bool
no_entries [] = true
no_entries (e ∷ es) = false

-- The rows loaded, if no access was behind an array or through a pointer that `malloc` left null.
unfoldable pub load_rows : (has_memory : Bool) → Setup → List Row → (locks : ℕ → ℕ) → Option Loaded
unfolding get_traces
load_rows has_memory u rows locks =
    let l = get_traces u rows (record { entries = []; locks = locks }) in
    if within_map u rows && (within_counts l.entries && (has_memory || no_entries l.entries))
    then some l
    else none

-- A stream that did not open is read; else the loop goes `line_c - 2` times, or to the end of the file.
abbrev pub load_opened : (has_memory : Bool) → Setup → ℕ → Option Contents → Loaded → Option Loaded
load_opened has_memory u k none l = none
load_opened has_memory u k (some c) l =
    if c.has_head then load_rows has_memory u (take (k - 2) c.rows) l.locks else some l

abbrev pub load_counted :
    (has_memory : Bool) → Setup → Option ℕ → Option Contents → Loaded → Option Loaded
load_counted has_memory u none opened l = some l
load_counted has_memory u (some k) opened l = load_opened has_memory u k opened l

-- The arrays after `get_traces` for a client: at an early return what they were. `none` is undefined:
-- a stream that did not open is read, or there is a fault as above.
unfoldable pub load_file : (has_memory : Bool) → Setup → Source → Loaded → Option Loaded
unfolding load_rows
load_file has_memory u f l = load_counted has_memory u f.line_c f.opened l
