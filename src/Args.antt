-- ===== src/Args.antt =====
-- The command line: `nc_parse_args` of dpdk_code/lock_server_code/server.c and of
-- dpdk_code/client_code/client.c, which has no option `P`.
pub mod Accepted
pub mod Client
mod Tests
use net_lock.Common.{
  ℕ, zero, suc, ◌+◌, ◌-◌, ◌*◌, ◌/◌, ◌%◌, ◌^◌, List, [], ◌∷◌, Option, none, some, ◌==◌, ltb,
  if◌then◌else◌, length,
}

-- What `atoi` returns.
pub data ℤ : Type 0 where
  pos : ℕ → ℤ
  negsuc : ℕ → ℤ

-- The options by what they set, in the order N g O S C T a l o k e t m s w i p c n b r z P of their
-- letters, and what `getopt` returns for another.
pub data Letter : Type 0 where
  cores batch timeout servers clients think task slots memory locks emulated : Letter
  server_pool transfer speed warehouses interval ports contention machine workload : Letter
  receivers zipf prefix unknown : Letter

-- An option as it is read: `atoi(optarg)` and the characters of `optarg`, of which the first is 0 if
-- there are none.
pub record Argument : Type 0 where
  pub letter : Letter
  pub num : ℤ
  pub first : ℕ
  pub text : List ℕ

-- The variables that the options set.
pub record Settings : Type 0 where
  pub num_of_cores : ℕ
  pub batch_size : ℕ
  pub timeout_slot : ℕ
  pub server_node_num : ℕ
  pub client_node_num : ℕ
  pub think_time : ℕ
  pub task_id : ℕ
  pub slot_num : ℕ
  pub memory_management : ℕ
  pub lock_num : ℕ
  pub client_num : ℕ
  pub role : ℕ
  pub data_transfer_mode : ℕ
  pub wpkts_send_limit_ms : ℕ
  pub warehouse : ℕ
  pub average_interval : ℕ
  pub enabled_port_mask : ℕ
  pub contention_degree : ℕ
  pub machine_id : ℕ
  pub benchmark : ℕ
  pub extensive_locks : ℕ
  pub obj_per_lock : ℕ
  pub n_rcv_cores : ℕ
  pub zipf_alpha : ℕ
  pub dir_prefix : List ℕ

abbrev pub positive : ℤ → Option ℕ
positive (pos zero) = none
positive (pos (suc n)) = some (suc n)
positive (negsuc n) = none

abbrev pub not_negative : ℤ → Option ℕ
not_negative (pos n) = some n
not_negative (negsuc n) = none

-- A number stored in a `uint32_t`.
abbrev pub to_uint32 : ℤ → ℕ
to_uint32 (pos n) = n % 2 ^ 32
to_uint32 (negsuc n) = (2 ^ 32 - 1) - n % 2 ^ 32

abbrev pub set : Option ℕ → (ℕ → Settings) → Option Settings
set none f = none
set (some n) f = some (f n)

-- The letters b, w, 1 and 2; another one leaves the variable as it was.
unfoldable pub set_memory : (first : ℕ) → Settings → Settings
set_memory first s =
    if first == 98
    then record s { memory_management = 98 }
    else if first == 119
    then record s { memory_management = 119 }
    else if first == 49
    then record s { memory_management = 49 }
    else if first == 50
    then record s { memory_management = 50 }
    else s

abbrev pub workload_of : (benchmark extensive_locks obj_per_lock : ℕ) → Settings → Option Settings
workload_of b e o s = some (record s { benchmark = b; extensive_locks = e; obj_per_lock = o })

-- The letters s, x, n, z, u, t and v.
unfoldable pub set_benchmark : (first : ℕ) → Settings → Option Settings
set_benchmark first s =
    if first == 115
    then workload_of 115 55000 1 s
    else if first == 120
    then workload_of 120 55000 1 s
    else if first == 110
    then workload_of 110 20 150 s
    else if first == 122
    then workload_of 122 55000 1 s
    else if first == 117
    then workload_of 117 55000 1 s
    else if first == 116
    then workload_of 116 7000000 1 s
    else if first == 118
    then workload_of 118 7000000 1 s
    else none

-- The letters s and a.
unfoldable pub set_transfer : (first : ℕ) → Settings → Settings
set_transfer first s =
    if first == 115
    then record s { data_transfer_mode = 115 }
    else if first == 97
    then record s { data_transfer_mode = 97 }
    else s

-- What becomes of the program: it goes on with the settings, refuses the arguments with -1, or does
-- what the language leaves undefined.
pub data Parsed : Type 0 where
  parsed : Settings → Parsed
  refused crashed : Parsed

abbrev pub or_refused : Option Settings → Parsed
or_refused none = refused
or_refused (some s) = parsed s

abbrev pub prefix_size : ℕ
prefix_size = 100

-- One round of the loop in the lock server.
unfoldable pub parse_option : Argument → Settings → Parsed
unfolding set_memory set_benchmark set_transfer
parse_option a s = elim a.letter [
  | cores ↦ or_refused (set (positive a.num) (λ n. record s { num_of_cores = n }))
  | batch ↦ or_refused (set (positive a.num) (λ n. record s { batch_size = n }))
  | timeout ↦ or_refused (set (not_negative a.num) (λ n. record s { timeout_slot = n }))
  | servers ↦ or_refused (set (not_negative a.num) (λ n. record s { server_node_num = n }))
  | clients ↦ or_refused (set (not_negative a.num) (λ n. record s { client_node_num = n }))
  | think ↦ or_refused (set (not_negative a.num) (λ n. record s { think_time = n }))
  | task ↦ parsed (record s { task_id = a.first })
  | slots ↦ or_refused (set (not_negative a.num) (λ n. record s { slot_num = n }))
  | memory ↦ parsed (set_memory a.first s)
  | locks ↦ or_refused (set (positive a.num) (λ n. record s { lock_num = n }))
  | emulated ↦ or_refused (set (positive a.num) (λ n. record s { client_num = n }))
  | server_pool ↦ parsed (record s { role = 115 })
  | transfer ↦ parsed (set_transfer a.first s)
  | speed ↦ parsed (record s { wpkts_send_limit_ms = to_uint32 a.num })
  | warehouses ↦ or_refused (set (positive a.num) (λ n. record s { warehouse = n }))
  | interval ↦ parsed (record s { average_interval = to_uint32 a.num })
  | ports ↦ or_refused (set (positive a.num) (λ n. record s { enabled_port_mask = n }))
  | contention ↦ or_refused (set (positive a.num) (λ n. record s { contention_degree = n }))
  | machine ↦ or_refused (set (positive a.num) (λ n. record s { machine_id = n }))
  | workload ↦ or_refused (set_benchmark a.first s)
  | receivers ↦ or_refused (set (positive a.num) (λ n. record s { n_rcv_cores = n }))
  | zipf ↦ parsed (record s { zipf_alpha = to_uint32 a.num })
  | prefix ↦
      if ltb (length a.text) prefix_size then parsed (record s { dir_prefix = a.text }) else crashed
  | unknown ↦ refused
]

-- One round of the loop in the client: `getopt` does not know `P` there.
unfoldable pub parse_client_option : Argument → Settings → Parsed
unfolding parse_option
parse_client_option a s = elim a.letter [ prefix ↦ refused | _ ↦ parse_option a s ]

-- The loop, with the round of the one program or the other.
unfoldable pub parse_loop : (Argument → Settings → Parsed) → List Argument → Settings → Parsed
parse_loop option [] s = parsed s
parse_loop option (a ∷ rest) s = elim (option a s) [
  | parsed s' ↦ parse_loop option rest s'
  | refused ↦ refused
  | crashed ↦ crashed
]

-- `latency_sample_interval`, computed in 32 bits.
unfoldable pub sample_interval : Settings → ℕ
sample_interval s =
    let n =
      s.wpkts_send_limit_ms
      * s.average_interval
      % 2 ^ 32
      * 2
      % 2 ^ 32
      * 1000
      % 2 ^ 32
      / 10000
      / s.n_rcv_cores in
    if ltb 1 n then n else 1

-- The end of `nc_parse_args`: a division by 0 where no option has set `n_rcv_cores`.
abbrev pub finish : Parsed → Parsed × ℕ
finish (parsed s) = if s.n_rcv_cores == 0 then (crashed, 0) else (parsed s, sample_interval s)
finish refused = (refused, 0)
finish crashed = (crashed, 0)

unfoldable pub nc_parse_args :
    (Argument → Settings → Parsed) → List Argument → Settings → Parsed × ℕ
unfolding parse_loop sample_interval
nc_parse_args option rest s = finish (parse_loop option rest s)
