-- ===== src/Start/Running.antt =====
-- A lock server that has started.
use net_lock.Common.{
  ℕ, ◌<◌, ◌≤◌, ◌≡◌, ◌∙◌, refl, sym, List, [], Option, none, some, true, ap, subst, inl, inr,
  Option-cases, eq-of_some, arith, leb, lt→ltb,
}
use net_lock.Args.{
  Settings, Argument, Parsed, parsed, refused, crashed, nc_parse_args, parse_option,
}
use net_lock.Setup.{
  Dpdk, Initialised, Lcore, Call, ready, no_pool, no_ports, divides_by_zero,
  cores_not_multiple_of_ports, too_few_rx_queues, failed, all_ports_disabled, nc_init,
}
use net_lock.Layout.{Lengths, get_queue_len_in_switch}
use net_lock.Server.{Server, max_lock_num}
use net_lock.Server.History.{History, IsStart, Reach, start}
use net_lock.Start.{
  Machine, Program, Preparation, runs, undefined, prepare, batches, setup_of, server_of, no_lengths,
  after_init, after_args, after_eal, or_undefined, main, max_client_num, own_ip, after_memset,
  guard, ◌>>=◌,
}

-- The history of a lock before the first packet.
abbrev pub fresh : Server → History
fresh s = record { server = s; held = []; served = []; asked = [] }

-- What holds of a program that `prepare` makes.
pub record IsPrepared (m : Machine) (s : Settings) (lcores : List Lcore) (made : List Call)
    (x : Program) : Type 0 where
  pub settings : x.settings ≡ s
  pub cores : x.cores ≡ lcores
  pub calls : x.calls ≡ made
  pub address : x.ip_src_pton ≡ own_ip m s.machine_id
  pub lengths :
      (l : Lengths) × (get_queue_len_in_switch s m.unset_i m.unset_lk_idx m.files no_lengths
        ≡ some l)
      × (x.server ≡ server_of m s.client_num l)

pub >>=-eq-some :
    {A B : Type 0} (o : Option A) (f : A → Option B) {b : B}
    → (o >>= f) ≡ some b
    → (a : A) × (o ≡ some a) × (f a ≡ some b)
>>=-eq-some none f h = cc
>>=-eq-some (some a) f h = (a, refl, h)

prepare-IsPrepared :
    (m : Machine) (s : Settings) (interval : ℕ) (cores : List Lcore) (calls : List Call)
    (x : Program)
    → prepare m s interval cores calls ≡ some x
    → IsPrepared m s cores calls x
unfolding prepare
prepare-IsPrepared m s interval cores calls x h =
    let (l, layout, h2) =
      >>=-eq-some (get_queue_len_in_switch s m.unset_i m.unset_lk_idx m.files no_lengths) _ h in
    let (map, _, h5) = >>=-eq-some (batches m s) _ h2 in
    let (_, _, h6) = >>=-eq-some (guard m.has_memory) _ h5 in
    let e = eq-of_some h6 in
    record {
      settings = sym (ap (λ (y : Program). y.settings) e);
      cores = sym (ap (λ (y : Program). y.cores) e);
      calls = sym (ap (λ (y : Program). y.calls) e);
      address = sym (ap (λ (y : Program). y.ip_src_pton) e);
      lengths = (l, layout, sym (ap (λ (y : Program). y.server) e));
    }

after_init-ready :
    {P : Type 0} (f : Preparation P) (s : Settings) (interval : ℕ) (e : Initialised) (x : P)
    → after_init f s interval e ≡ runs x
    → (ports : List ℕ) × (cores : List Lcore) × (calls : List Call) × (e ≡ ready ports cores calls)
      × (f s interval cores calls ≡ some x)
after_init-ready f s interval (ready ports cores calls) x h =
    elim (Option-cases (f s interval cores calls)) [
      | inl fault ↦
          absurd
            (let stuck : undefined ≡ runs x = subst (λ o. or_undefined o ≡ runs x) fault h in cc)
      | inr (y, made) ↦
          let same : y ≡ x =
            let e : runs y ≡ runs x = subst (λ o. or_undefined o ≡ runs x) made h in cc in
          (ports, cores, calls, refl, made ∙ ap some same)
    ]
after_init-ready f s interval no_pool x h = cc
after_init-ready f s interval no_ports x h = cc
after_init-ready f s interval divides_by_zero x h = cc
after_init-ready f s interval cores_not_multiple_of_ports x h = cc
after_init-ready f s interval too_few_rx_queues x h = cc
after_init-ready f s interval (failed c) x h = cc
after_init-ready f s interval all_ports_disabled x h = cc

after_args-runs :
    {P : Type 0} (dpdk : Dpdk) (f : Preparation P) (p : Parsed) (interval : ℕ) (x : P)
    → after_args dpdk f p interval ≡ runs x
    → (s : Settings) × (after_init f s interval (nc_init dpdk (setup_of s)) ≡ runs x)
after_args-runs dpdk f (parsed s) interval x h = (s, h)
after_args-runs dpdk f refused interval x h = cc
after_args-runs dpdk f crashed interval x h = cc

-- A program that runs has come through all the parts.
pub after_eal-runs :
    {P : Type 0} (dpdk : Dpdk) (parse : Argument → Settings → Parsed) (f : Preparation P)
    (d : Settings) (eal : Option (List Argument)) (x : P)
    → after_eal dpdk parse f d eal ≡ runs x
    → (s : Settings) × (interval : ℕ) × (ports : List ℕ) × (cores : List Lcore) × (calls : List
        Call)
      × (nc_init dpdk (setup_of s) ≡ ready ports cores calls)
      × (f s interval cores calls ≡ some x)
after_eal-runs dpdk parse f d none x h = cc
after_eal-runs dpdk parse f d (some args) x h =
    let r = nc_parse_args parse args d in
    let (s, h') = after_args-runs dpdk f r.0 r.1 x h in
    let (ports, cores, calls, e, p) = after_init-ready f s r.1 (nc_init dpdk (setup_of s)) x h' in
    (s, r.1, ports, cores, calls, e, p)

server_of-IsStart :
    (m : Machine) (client_num : ℕ) (lengths : Lengths) (l : ℕ)
    → client_num ≤ max_client_num
    → l < max_lock_num
    → IsStart l (fresh (server_of m client_num lengths))
unfolding server_of after_memset
server_of-IsStart m client_num lengths l few fits =
    let within : leb client_num 8 ≡ true = ground (arith, few) in
    record {
      queue = rw (lt→ltb l max_lock_num fits) refl;
      num_ex = rw within refl;
      num_sh = rw within refl;
      held = refl;
      served = refl;
      asked = refl;
    }

-- A lock server that comes to the launch of its cores, with at most 8 clients, is at the start of the
-- history of each lock within the arrays.
pub main-Reach :
    (m : Machine) (defaults : Settings) (x : Program) (l : ℕ)
    → main m defaults ≡ runs x
    → x.settings.client_num ≤ max_client_num
    → l < max_lock_num
    → Reach l (fresh x.server)
unfolding main
main-Reach m defaults x l h few fits =
    let (s, interval, ports, cores, calls, e, made) =
      after_eal-runs m.dpdk parse_option (prepare m) defaults m.eal x h in
    let p = prepare-IsPrepared m s interval cores calls x made in
    let (lengths, _, same) = p.lengths in
    let few' : s.client_num ≤ 8 = subst (λ (t : Settings). t.client_num ≤ 8) p.settings few in
    start (fresh x.server) (
      subst (λ s'. IsStart l (fresh s')) (sym same)
        (server_of-IsStart m s.client_num lengths l few' fits))
