-- ===== src/Args/Client.antt =====
-- The client's command line against the lock server's.
use net_lock.Common.{ℕ, ◌≡◌, refl, ◌∙◌, List, [], ◌∷◌, ◌++◌, All}
use net_lock.Args.{
  ℤ, Letter, cores, batch, timeout, servers, clients, think, task, slots, memory, locks, emulated,
  server_pool, transfer, speed, warehouses, interval, ports, contention, machine, workload,
  receivers, zipf, prefix, unknown, Argument, Settings, refused, parse_option, parse_client_option,
  parse_loop, nc_parse_args,
}
use net_lock.Args.Accepted.{argument, IsLegal, IsSane, option-Ends}

-- An option other than `P`.
abbrev pub IsShared : Argument → Type 0
IsShared a = elim a.letter as (λ _. Type 0) [ prefix ↦ ⊥ | _ ↦ Unit ]

option_same :
    (letter : Letter) (z : ℤ) (c : ℕ) (t : List ℕ) (s : Settings)
    → IsShared (argument letter z c t)
    → parse_client_option (argument letter z c t) s ≡ parse_option (argument letter z c t) s
unfolding parse_client_option
option_same cores z c t s h = refl
option_same batch z c t s h = refl
option_same timeout z c t s h = refl
option_same servers z c t s h = refl
option_same clients z c t s h = refl
option_same think z c t s h = refl
option_same task z c t s h = refl
option_same slots z c t s h = refl
option_same memory z c t s h = refl
option_same locks z c t s h = refl
option_same emulated z c t s h = refl
option_same server_pool z c t s h = refl
option_same transfer z c t s h = refl
option_same speed z c t s h = refl
option_same warehouses z c t s h = refl
option_same interval z c t s h = refl
option_same ports z c t s h = refl
option_same contention z c t s h = refl
option_same machine z c t s h = refl
option_same workload z c t s h = refl
option_same receivers z c t s h = refl
option_same zipf z c t s h = refl
option_same unknown z c t s h = refl
option_same prefix z c t s h = elim h [ ]

-- The loops agree on the options that they share, up to which they agree on the settings.
loop_same :
    (args : List Argument) (s : Settings)
    → All IsShared args
    → All IsLegal args
    → IsSane s
    → parse_loop parse_client_option args s ≡ parse_loop parse_option args s
unfolding parse_loop
loop_same [] s shared legal sane = refl
loop_same (a ∷ rest) s shared legal sane =
    let (s', (ran, (sane', cores'))) = option-Ends a.letter a.num a.first a.text s legal.0 sane in
    rw (parse_loop, option_same a.letter a.num a.first a.text s shared.0, ran)
      (loop_same rest s' shared.1 legal.1 sane')

loop_refuses :
    (before rest : List Argument) (z : ℤ) (c : ℕ) (t : List ℕ) (s : Settings)
    → All IsShared before
    → All IsLegal before
    → IsSane s
    → parse_loop parse_client_option (before ++ argument prefix z c t ∷ rest) s ≡ refused
unfolding parse_loop parse_client_option
loop_refuses [] rest z c t s shared legal sane = refl
loop_refuses (a ∷ before) rest z c t s shared legal sane =
    let (s', (ran, (sane', cores'))) = option-Ends a.letter a.num a.first a.text s legal.0 sane in
    let same = option_same a.letter a.num a.first a.text s shared.0 in
    rw (parse_loop, same ∙ ran) (loop_refuses before rest z c t s' shared.1 legal.1 sane')

-- From sane settings, on legal options without `P`: the client does as the lock server does, and it
-- refuses the command line if `P` follows them.
pub nc_parse_args-prefix :
    (before rest : List Argument) (z : ℤ) (c : ℕ) (t : List ℕ) (s : Settings)
    → All IsShared before
    → All IsLegal before
    → IsSane s
    → (nc_parse_args parse_client_option before s ≡ nc_parse_args parse_option before s)
      × (nc_parse_args parse_client_option (before ++ argument prefix z c t ∷ rest) s
          ≡ (refused, 0))
unfolding nc_parse_args
nc_parse_args-prefix before rest z c t s shared legal sane = (
  rw (loop_same before s shared legal sane) refl,
  rw (loop_refuses before rest z c t s shared legal sane) refl,
)
