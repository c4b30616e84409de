-- ===== src/Layout.antt =====
-- `get_queue_len_in_switch` of dpdk_code/lock_server_code/server.c: how long the switch's queue of each
-- lock is, by the benchmark or by a file.
pub mod Reading
mod Tests
use net_lock.Common.{
  ℕ, zero, suc, ◌+◌, List, [], ◌∷◌, ◌++◌, Option, none, some, Bool, true, false, ◌==◌, ◌||◌, ltb,
  leb, if◌then◌else◌, write,
}
use net_lock.Server.{max_lock_num}
use net_lock.Args.{Settings}

-- The names of files that it prints into `memn_filename`; `unset` is what stood there before.
pub data Layout : Type 0 where
  unset random_weight random_uni_12 random_uni_200 empty : Layout
  incast notable_incast multiserver : (client_nodes warehouse slots : ℕ) → Layout
  random_slots : (slots : ℕ) → Layout

-- The file for the benchmarks other than `t`.
unfoldable pub memory_file : Settings → Layout
memory_file s =
    if s.memory_management == 98
    then if s.benchmark == 118 then incast s.client_node_num s.warehouse s.slot_num else unset
    else if s.memory_management == 119
    then random_weight
    else if s.memory_management == 49
    then random_uni_12
    else if s.memory_management == 50
    then random_uni_200
    else unset

unfoldable pub layout_file : Settings → Layout
unfolding memory_file
layout_file s =
    if s.benchmark == 116
    then if s.memory_management == 98
      then if s.task_id == 112
        then notable_incast s.client_node_num s.warehouse s.slot_num
        else if s.task_id == 113
        then multiserver s.client_node_num s.warehouse s.slot_num
        else if s.task_id == 101
        then empty
        else notable_incast s.client_node_num s.warehouse s.slot_num
      else random_slots s.slot_num
    else memory_file s

pub record Line : Type 0 where
  pub lk_idx : ℕ
  pub lk_length : ℕ

-- What the shell and the file give: the number of lines that `wc` counts, if the command runs and
-- prints one, and the lines that `fscanf` reads.
pub record File : Type 0 where
  pub line_c : Option ℕ
  pub lines : List Line

-- `len_in_switch` and `secondary_locks`.
pub record Lengths : Type 0 where
  pub len_in_switch : ℕ → ℕ
  pub secondary_locks : List ℕ

-- The loop over the lines, by the rounds left. `last` is what `lk_idx` holds; at the end of the file
-- it is recorded if `records`. `none` is a write behind the array.
unfoldable pub read_loop : (records : Bool) → ℕ → (last : ℕ) → List Line → Lengths → Option Lengths
unfolding write
read_loop records zero last lines l = some l
read_loop records (suc k) last [] l =
    some
      (if records then record l { secondary_locks = l.secondary_locks ++ (last + 1) ∷ [] } else l)
read_loop records (suc k) last (n ∷ lines) l =
    if ltb (n.lk_idx + 1) max_lock_num
    then read_loop records k n.lk_idx lines
        (record l { len_in_switch = write l.len_in_switch (n.lk_idx + 1) n.lk_length })
    else none

unfoldable pub read_file : (records : Bool) → (last : ℕ) → File → Lengths → Option Lengths
unfolding read_loop
read_file records last f l = elim f.line_c [
  | none ↦ some l
  | some k ↦ read_loop records k last f.lines l
]

-- `for (int i; i < MAX_LOCK_NUM; i++)`, where nothing has set `i`: the loop starts at what it holds.
abbrev pub fill : (start : ℕ) → (ℕ → ℕ) → Lengths → Lengths
fill start value l = record l {
  len_in_switch = λ i.
      if leb start i
      then (if ltb i max_lock_num then value i else l.len_in_switch i)
      else l.len_in_switch i;
}

-- The branches by the benchmark, with what the two kinds of files would give.
unfoldable pub by_benchmark :
    (benchmark start : ℕ) → (from_file from_tpcc_file : Option Lengths) → Lengths → Option Lengths
by_benchmark benchmark start from_file from_tpcc_file l =
    if benchmark == 115
    then some (fill start (λ i. 10000) l)
    else if benchmark == 120
    then some (fill start (λ i. 12) l)
    else if benchmark == 110
    then some (fill start (λ i. if leb i 20 then 500 else 20) l)
    else if (benchmark == 122) || (benchmark == 117)
    then from_file
    else if (benchmark == 116) || (benchmark == 118)
    then from_tpcc_file
    else some l

abbrev pub cleared : Lengths → Lengths
cleared l = record l { len_in_switch = λ i. if ltb i max_lock_num then 0 else l.len_in_switch i }

unfoldable pub get_queue_len_in_switch :
    Settings → (start last : ℕ) → (Layout → File) → Lengths → Option Lengths
unfolding by_benchmark read_file layout_file
get_queue_len_in_switch s start last files l =
    let f = files (layout_file s) in
    by_benchmark s.benchmark start (read_file false last f (cleared l))
      (read_file true last f (cleared l)) (cleared l)
