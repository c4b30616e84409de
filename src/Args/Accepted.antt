-- ===== src/Args/Accepted.antt =====
-- Which command lines are accepted, and what holds of the settings then.
use net_lock.Common.{
  ℕ, suc, ◌<◌, ◌≤◌, ◌≡◌, ◌⊎◌, inl, inr, refl, sym, ◌∙◌, List, [], ◌∷◌, ◌==◌, length, All, branches,
  subst, ==→eq, ap, arith, lt→ltb, Bool-cases,
}
use net_lock.Args.{
  ℤ, pos, negsuc, Letter, cores, batch, timeout, servers, clients, think, task, slots, memory,
  locks, emulated, server_pool, transfer, speed, warehouses, interval, ports, contention, machine,
  workload, receivers, zipf, prefix, unknown, Argument, Settings, Parsed, parsed, crashed, positive,
  not_negative, set_benchmark, workload_of, or_refused, set, to_uint32, set_memory, set_transfer,
  parse_option, parse_loop, sample_interval, nc_parse_args, prefix_size,
}

abbrev pub IsPositive : ℤ → Type 0
IsPositive z = (n : ℕ) × (z ≡ pos (suc n))

abbrev pub IsNotNegative : ℤ → Type 0
IsNotNegative z = (n : ℕ) × (z ≡ pos n)

-- One of the letters s, x, n, z, u, t and v.
abbrev pub IsBenchmark : ℕ → Type 0
IsBenchmark c =
    (c ≡ 115) ⊎ ((c ≡ 120) ⊎ ((c ≡ 110) ⊎ ((c ≡ 122) ⊎ ((c ≡ 117) ⊎ ((c ≡ 116) ⊎ (c ≡ 118))))))

-- What an option must carry.
abbrev pub IsLegal : Argument → Type 0
IsLegal a = elim a.letter as (λ _. Type 0) [
  | cores ↦ IsPositive a.num
  | batch ↦ IsPositive a.num
  | timeout ↦ IsNotNegative a.num
  | servers ↦ IsNotNegative a.num
  | clients ↦ IsNotNegative a.num
  | think ↦ IsNotNegative a.num
  | slots ↦ IsNotNegative a.num
  | locks ↦ IsPositive a.num
  | emulated ↦ IsPositive a.num
  | warehouses ↦ IsPositive a.num
  | ports ↦ IsPositive a.num
  | contention ↦ IsPositive a.num
  | machine ↦ IsPositive a.num
  | workload ↦ IsBenchmark a.first
  | receivers ↦ IsPositive a.num
  | prefix ↦ length a.text < prefix_size
  | unknown ↦ ⊥
  | task ↦ Unit
  | memory ↦ Unit
  | server_pool ↦ Unit
  | transfer ↦ Unit
  | speed ↦ Unit
  | interval ↦ Unit
  | zipf ↦ Unit
]

-- What the loops divide by, and what they count with, is not 0.
abbrev pub IsSane : Settings → Type 0
IsSane s =
    (0 < s.lock_num)
    × (0 < s.client_num)
    × (0 < s.warehouse)
    × (0 < s.obj_per_lock)
    × (0 < s.batch_size)
    × (0 < s.num_of_cores)

abbrev pub magnitude : ℤ → ℕ
magnitude (pos n) = n
magnitude (negsuc n) = 0

abbrev pub cores_set : Letter → ℤ → ℕ → ℕ
cores_set letter z n = elim letter [ receivers ↦ magnitude z | _ ↦ n ]

-- The number of the last option `r`, or `n` if there is none.
abbrev pub cores_given : List Argument → ℕ → ℕ
cores_given [] n = n
cores_given (a ∷ rest) n = cores_given rest (cores_set a.letter a.num n)

-- Sane settings, with that many receiving cores.
abbrev pub Ends : ℕ → Parsed → Type 0
Ends k p = (s : Settings) × ((p ≡ parsed s) × (IsSane s × (s.n_rcv_cores ≡ k)))

abbrev pub IsFine : ℕ → Settings → Type 0
IsFine k s = IsSane s × (s.n_rcv_cores ≡ k)

workload-Ends :
    (b e o : ℕ) (s : Settings)
    → IsSane s
    → 0 < o
    → Ends s.n_rcv_cores (or_refused (workload_of b e o s))
workload-Ends b e o s (l, c, w, ob, ba, n) h = (
  record s { benchmark = b; extensive_locks = e; obj_per_lock = o },
  (refl, ((l, c, w, h, ba, n), refl)),
)

set_benchmark-Ends :
    (c : ℕ) (s : Settings)
    → IsBenchmark c
    → IsSane s
    → Ends s.n_rcv_cores (or_refused (set_benchmark c s))
unfolding set_benchmark
set_benchmark-Ends c s h sane =
    let at = λ (b : ℕ) (e : c ≡ b) (r : Ends s.n_rcv_cores (or_refused (set_benchmark b s))).
      subst (λ d. Ends s.n_rcv_cores (or_refused (set_benchmark d s))) (sym e) r in
    elim h [
      | inl e ↦ at 115 e (workload-Ends 115 55000 1 s sane (omega arith))
      | inr (inl e) ↦ at 120 e (workload-Ends 120 55000 1 s sane (omega arith))
      | inr (inr (inl e)) ↦ at 110 e (workload-Ends 110 20 150 s sane (omega arith))
      | inr (inr (inr (inl e))) ↦ at 122 e (workload-Ends 122 55000 1 s sane (omega arith))
      | inr (inr (inr (inr (inl e)))) ↦ at 117 e (workload-Ends 117 55000 1 s sane (omega arith))
      | inr (inr (inr (inr (inr (inl e))))) ↦
          at 116 e (workload-Ends 116 7000000 1 s sane (omega arith))
      | inr (inr (inr (inr (inr (inr e))))) ↦
          at 118 e (workload-Ends 118 7000000 1 s sane (omega arith))
    ]

positive-Ends :
    (k : ℕ) (z : ℤ) (f : ℕ → Settings)
    → IsPositive z
    → ((n : ℕ) → IsFine k (f (suc n)))
    → Ends k (or_refused (set (positive z) f))
positive-Ends k z f (n, e) fine = (f (suc n), (rw e refl, fine n))

not_negative-Ends :
    (k : ℕ) (z : ℤ) (f : ℕ → Settings)
    → IsNotNegative z
    → ((n : ℕ) → IsFine k (f n))
    → Ends k (or_refused (set (not_negative z) f))
not_negative-Ends k z f (n, e) fine = (f n, (rw e refl, fine n))

set_memory-Ends : (c : ℕ) (s : Settings) → IsSane s → Ends s.n_rcv_cores (parsed (set_memory c s))
unfolding set_memory
set_memory-Ends c s sane =
    let k = s.n_rcv_cores in
    let P = λ (t : Settings). Ends k (parsed t) in
    let at : (m : ℕ) → P (record s { memory_management = m }) =
      λ m. (record s { memory_management = m }, (refl, (sane, refl))) in
    branches P (c == 98) (at 98) (
      branches P (c == 119) (at 119)
        (branches P (c == 49) (at 49) (branches P (c == 50) (at 50) (s, (refl, (sane, refl))))))

set_transfer-Ends :
    (c : ℕ) (s : Settings) → IsSane s → Ends s.n_rcv_cores (parsed (set_transfer c s))
unfolding set_transfer
set_transfer-Ends c s sane =
    let P = λ (t : Settings). Ends s.n_rcv_cores (parsed t) in
    let at : (m : ℕ) → P (record s { data_transfer_mode = m }) =
      λ m. (record s { data_transfer_mode = m }, (refl, (sane, refl))) in
    branches P (c == 115) (at 115) (branches P (c == 97) (at 97) (s, (refl, (sane, refl))))

abbrev pub argument : Letter → ℤ → ℕ → List ℕ → Argument
argument letter z c t = record { letter = letter; num = z; first = c; text = t }

pub option-Ends :
    (letter : Letter) (z : ℤ) (c : ℕ) (t : List ℕ) (s : Settings)
    → IsLegal (argument letter z c t)
    → IsSane s
    → Ends (cores_set letter z s.n_rcv_cores) (parse_option (argument letter z c t) s)
unfolding parse_option
option-Ends cores z c t s h (l, cl, w, o, ba, nc) =
    positive-Ends s.n_rcv_cores z (λ n. record s { num_of_cores = n }) h
      (λ n. ((l, cl, w, o, ba, omega arith), refl))
option-Ends batch z c t s h (l, cl, w, o, ba, nc) =
    positive-Ends s.n_rcv_cores z (λ n. record s { batch_size = n }) h
      (λ n. ((l, cl, w, o, omega arith, nc), refl))
option-Ends timeout z c t s h sane =
    not_negative-Ends s.n_rcv_cores z (λ n. record s { timeout_slot = n }) h (λ n. (sane, refl))
option-Ends servers z c t s h sane =
    not_negative-Ends s.n_rcv_cores z (λ n. record s { server_node_num = n }) h (λ n. (sane, refl))
option-Ends clients z c t s h sane =
    not_negative-Ends s.n_rcv_cores z (λ n. record s { client_node_num = n }) h (λ n. (sane, refl))
option-Ends think z c t s h sane =
    not_negative-Ends s.n_rcv_cores z (λ n. record s { think_time = n }) h (λ n. (sane, refl))
option-Ends task z c t s h sane = (record s { task_id = c }, (refl, (sane, refl)))
option-Ends slots z c t s h sane =
    not_negative-Ends s.n_rcv_cores z (λ n. record s { slot_num = n }) h (λ n. (sane, refl))
option-Ends memory z c t s h sane = set_memory-Ends c s sane
option-Ends locks z c t s h (l, cl, w, o, ba, nc) =
    positive-Ends s.n_rcv_cores z (λ n. record s { lock_num = n }) h
      (λ n. ((omega arith, cl, w, o, ba, nc), refl))
option-Ends emulated z c t s h (l, cl, w, o, ba, nc) =
    positive-Ends s.n_rcv_cores z (λ n. record s { client_num = n }) h
      (λ n. ((l, omega arith, w, o, ba, nc), refl))
option-Ends server_pool z c t s h sane = (record s { role = 115 }, (refl, (sane, refl)))
option-Ends transfer z c t s h sane = set_transfer-Ends c s sane
option-Ends speed z c t s h sane =
    (record s { wpkts_send_limit_ms = to_uint32 z }, (refl, (sane, refl)))
option-Ends warehouses z c t s h (l, cl, w, o, ba, nc) =
    positive-Ends s.n_rcv_cores z (λ n. record s { warehouse = n }) h
      (λ n. ((l, cl, omega arith, o, ba, nc), refl))
option-Ends interval z c t s h sane =
    (record s { average_interval = to_uint32 z }, (refl, (sane, refl)))
option-Ends ports z c t s h sane =
    positive-Ends s.n_rcv_cores z (λ n. record s { enabled_port_mask = n }) h (λ n. (sane, refl))
option-Ends contention z c t s h sane =
    positive-Ends s.n_rcv_cores z (λ n. record s { contention_degree = n }) h (λ n. (sane, refl))
option-Ends machine z c t s h sane =
    positive-Ends s.n_rcv_cores z (λ n. record s { machine_id = n }) h (λ n. (sane, refl))
option-Ends workload z c t s h sane = set_benchmark-Ends c s h sane
option-Ends receivers z c t s (n, e) sane =
    (record s { n_rcv_cores = suc n }, (rw e refl, (sane, sym (ap magnitude e))))
option-Ends zipf z c t s h sane = (record s { zipf_alpha = to_uint32 z }, (refl, (sane, refl)))
option-Ends prefix z c t s h sane =
    (record s { dir_prefix = t }, (rw (lt→ltb (length t) 100 h) refl, (sane, refl)))
option-Ends unknown z c t s h sane = elim h [ ]

parse_loop-Ends :
    (args : List Argument) (s : Settings)
    → All IsLegal args
    → IsSane s
    → Ends (cores_given args s.n_rcv_cores) (parse_loop parse_option args s)
unfolding parse_loop
parse_loop-Ends [] s legal sane = (s, (refl, (sane, refl)))
parse_loop-Ends (a ∷ rest) s legal sane =
    let (s1, (ran, (sane1, cores1))) = option-Ends a.letter a.num a.first a.text s legal.0 sane in
    let (s2, (ran', (sane2, cores2))) = parse_loop-Ends rest s1 legal.1 sane1 in
    (s2, (rw (parse_loop, ran) ran', (sane2, cores2 ∙ ap (cores_given rest) cores1)))

sample_interval_positive : (s : Settings) → 1 ≤ sample_interval s
unfolding sample_interval
sample_interval_positive s = ground arith

-- Legal options only, from sane settings: if the last option `r`, or the setting before, gives a
-- receiving core, then the settings are accepted and sane, the interval between samples is at
-- least 1, and the receiving cores are those given; else the program divides by 0.
pub nc_parse_args-IsLegal :
    (args : List Argument) (s : Settings)
    → All IsLegal args
    → IsSane s
    → ((s' : Settings) × (nc_parse_args parse_option args s ≡ (parsed s', sample_interval s'))
        × IsSane s'
        × (1 ≤ sample_interval s')
        × (s'.n_rcv_cores ≡ cores_given args s.n_rcv_cores)
        × (0 < s'.n_rcv_cores))
      ⊎ ((cores_given args s.n_rcv_cores ≡ 0) × (nc_parse_args parse_option args s ≡ (crashed, 0)))
unfolding nc_parse_args
nc_parse_args-IsLegal args s legal sane =
    let (s', (ran, (sane', cores'))) = parse_loop-Ends args s legal sane in
    elim (Bool-cases (s'.n_rcv_cores == 0)) [
      | inl zero_cores ↦
          inr (sym cores' ∙ ==→eq s'.n_rcv_cores 0 zero_cores, rw (ran, zero_cores) refl)
      | inr some_cores ↦ inl (
        s',
        rw (ran, some_cores) refl,
        sane',
        sample_interval_positive s',
        cores',
        ground (arith, some_cores),
      )
    ]
