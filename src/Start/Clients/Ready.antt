-- ===== src/Start/Clients/Ready.antt =====
-- A client that has started: what its cores are given.
use net_lock.Common.{
  ℕ, zero, suc, ◌+◌, ◌-◌, ◌*◌, ◌/◌, ◌%◌, ◌^◌, ◌<◌, ◌≤◌, ◌≡◌, ◌∙◌, inl, inr, refl, sym, ap, subst,
  List, Option, none, some, true, false, arith, leb, ltb, write, write_self, write-ne, length, map,
  Bool-cases, lt→ltb, if◌then◌else◌, Option-cases, eq-of_some,
}
use native.Mathlib.Nat.{zero-div, div-eq_of_lt, zero-add}
use net_lock.Args.{Settings, parse_client_option}
use net_lock.Setup.{Lcore, Call, range_from}
use net_lock.Client.{Client, max_client_num, failure_normal}
use net_lock.Client.Visit.Sound.{AllSound}
use net_lock.Client.Cores.{and_then, client_index_s, client_index_e}
use net_lock.Client.Cores.Shares.{visit_each, never}
use net_lock.Traces.{Setup, Loaded}
use net_lock.Traces.Requests.{IsLoaded, requests, key_of}
use net_lock.Traces.Files.{trace_file, setup_of, load_file}
use net_lock.Start.{runs, batches}
use net_lock.Start.Running.{after_eal-runs, >>=-eq-some}
use net_lock.Start.Clients.{
  after_memset, no_client, ClientMachine, ClientProgram, Loads, no_loads, load_client, load_cores,
  client_of, prepare_client, main,
}
use net_lock.Start.Clients.Loading.{
  load_file-IsLoaded, load_clients-visit_each, load_cores-visit_each,
}

and_then-eq-some :
    {S : Type 0} (o : Option S) (f : S → Option S) {t : S}
    → and_then o f ≡ some t
    → (s : S) × (o ≡ some s) × (f s ≡ some t)
and_then-eq-some none f h = cc
and_then-eq-some (some s) f h = (s, refl, h)

module _ (m : ClientMachine) (s : Settings) (u : Setup) (n_lcores : ℕ) where
  abbrev load : ℕ → Loads → Option Loads
  load = load_client m s u n_lcores

  -- What `get_traces` makes for the client `j`.
  abbrev of_file : ℕ → Loads → Option Loaded
  of_file j loads =
      load_file m.machine.has_memory u (m.trace_files (trace_file s n_lcores j)) (loads j)

  -- A load changes one client, which is within the arrays.
  load_client-some :
      (j : ℕ) (loads after : Loads)
      → load j loads ≡ some after
      → (l : Loaded) × (of_file j loads ≡ some l) × (after ≡ write loads j l)
  unfolding load_client
  load_client-some j loads after h = elim (Bool-cases (ltb j max_client_num)) [
    | inr out ↦
        absurd (
          let e : load j loads ≡ none = rw out refl in let e' : none ≡ some after = sym e ∙ h in cc)
    | inl within ↦ elim (Option-cases (of_file j loads)) [
      | inl fault ↦ absurd (
          let e : load j loads ≡ none = rw (within, fault) refl in
          let e' : none ≡ some after = sym e ∙ h in cc)
      | inr (l, made) ↦
          let e : load j loads ≡ some (write loads j l) = rw (within, made) refl in
          (l, made, eq-of_some (sym h ∙ e))
    ]
  ]

  outside : (j : ℕ) (loads : Loads) → max_client_num ≤ j → load j loads ≡ none
  unfolding load_client
  outside j loads h = let out : ltb j 8 ≡ false = ground (arith, h) in rw out refl

  -- A loop over more clients than there are places.
  beyond :
      (n j : ℕ) (loads : Loads) → 8 < j + n → j ≤ 8 → visit_each load (range_from n j) loads ≡ none
  beyond zero j loads more le = absurd (omega (arith, more, le))
  beyond (suc n) j loads more le = elim (Bool-cases (ltb j 8)) [
    | inr out ↦ let e : 8 ≤ j = ground (arith, out) in rw (outside j loads e) refl
    | inl within ↦
        never (load j loads) _
          (λ l. beyond n (j + 1) l (omega (arith, more)) (ground (arith, within)))
  ]

  -- Clients before the range stay.
  kept :
      (n i j : ℕ) (loads after : Loads)
      → visit_each load (range_from n i) loads ≡ some after
      → j < i
      → after j ≡ loads j
  kept zero i j loads after h lt = ap (λ (f : Loads). f j) (sym (eq-of_some h))
  kept (suc n) i j loads after h lt =
      let (next, first, rest) = and_then-eq-some (load i loads) _ h in
      let (l, _, same) = load_client-some i loads next first in
      kept n (i + 1) j next after rest (omega (arith, lt))
      ∙ ap (λ (f : Loads). f j) same
      ∙ write-ne loads i j l (omega (arith, lt))

  -- Each client of the range gets what its file gives.
  gets :
      (n i j : ℕ) (loads after : Loads)
      → visit_each load (range_from n i) loads ≡ some after
      → i ≤ j
      → j < i + n
      → of_file j loads ≡ some (after j)
  gets zero i j loads after h le lt = absurd (omega (arith, le, lt))
  gets (suc n) i j loads after h le lt =
      let (next, first, rest) = and_then-eq-some (load i loads) _ h in
      let (l, made, same) = load_client-some i loads next first in
      elim (Bool-cases (ltb i j)) [
        | inl later ↦
            let old : next j ≡ loads j =
              ap (λ (f : Loads). f j) same ∙ write-ne loads i j l (ground (arith, later)) in
            subst
              (λ before.
                load_file m.machine.has_memory u (m.trace_files (trace_file s n_lcores j)) before
                ≡ some (after j))
              old (gets n (i + 1) j next after rest (ground (arith, later)) (omega (arith, lt)))
        | inr this ↦
            let e : i ≡ j = ground (arith, this, le) in
            let new : after i ≡ l =
              kept n (i + 1) i next after rest (omega arith)
              ∙ ap (λ (f : Loads). f i) same
              ∙ write_self loads i l in
            subst (λ k. of_file k loads ≡ some (after k)) e (made ∙ ap some (sym new))
      ]

  -- With fewer clients than sending cores the first of these goes on behind the arrays.
  too_few :
      (n k rounds : ℕ) (loads : Loads)
      → n < k
      → n < 9
      → 0 < rounds
      → load_cores load n k rounds 0 loads ≡ none
  unfolding load_cores client_index_s client_index_e
  too_few n k zero loads few fits more = absurd (omega (arith, more))
  too_few n k (suc rounds) loads few fits more =
      let none_yet : n / k ≡ 0 = div-eq_of_lt few in
      let word : 1 * n % 2 ^ 32 ≡ n = omega (arith, fits) in
      let last : client_index_e n k 0 ≡ 255 = rw (word, none_yet) refl in
      let product : 0 * n % 2 ^ 32 ≡ 0 = omega arith in
      let first : client_index_s n k 0 ≡ 0 = rw (product, zero-div k) refl in
      rw
        (
          last,
          first,
          load_clients-visit_each load 256 0 loads,
          beyond 256 0 loads (omega arith) (omega arith),
        )
        refl

no_loads-IsLoaded : (j : ℕ) → IsLoaded (no_loads j)
no_loads-IsLoaded j = record { distinct = tt; counted = λ txn. refl }

abbrev normal_client : (client_num : ℕ) → Client
normal_client n = record no_client { failure_act = λ cid. if ltb cid n then failure_normal else 0 }

-- `memset` stays within its array.
after_memset-few :
    (m : ClientMachine) (n : ℕ)
    → n ≤ max_client_num
    → after_memset m n (no_loads, no_client) ≡ (no_loads, normal_client n)
unfolding after_memset
after_memset-few m n few = let within : leb n 8 ≡ true = ground (arith, few) in rw within refl

-- What holds of a program that `prepare_client` makes.
record IsPrepared (m : ClientMachine) (s : Settings) (lcores : List Lcore) (made : List Call)
    (x : ClientProgram) : Type 0 where
  settings : x.settings ≡ s
  cores : x.cores ≡ lcores
  calls : x.calls ≡ made
  client : x.client ≡ client_of x.loads (after_memset m s.client_num (no_loads, no_client)).1
  loaded :
      (map : Option (ℕ → ℕ)) × (batches m.machine s ≡ some map)
      × (load_cores
            (load_client m s (setup_of s map) (length lcores))
            s.client_num
            (length lcores - s.n_rcv_cores)
            (length lcores - s.n_rcv_cores)
            0
            (after_memset m s.client_num (no_loads, no_client)).0
          ≡ some x.loads)

prepare_client-IsPrepared :
    (m : ClientMachine) (s : Settings) (interval : ℕ) (cores : List Lcore) (calls : List Call)
    (x : ClientProgram)
    → prepare_client m s interval cores calls ≡ some x
    → IsPrepared m s cores calls x
unfolding prepare_client
prepare_client-IsPrepared m s interval cores calls x h =
    let globals = after_memset m s.client_num (no_loads, no_client) in
    let (map, mapped, h3) = >>=-eq-some (batches m.machine s) _ h in
    let senders = length cores - s.n_rcv_cores in
    let (loads, loaded, h4) =
      >>=-eq-some
        (load_cores (load_client m s (setup_of s map) (length cores)) s.client_num senders senders 0
          globals.0)
        _ h3 in
    let e = eq-of_some h4 in
    let same : loads ≡ x.loads = ap (λ (y : ClientProgram). y.loads) e in
    record {
      settings = sym (ap (λ (y : ClientProgram). y.settings) e);
      cores = sym (ap (λ (y : ClientProgram). y.cores) e);
      calls = sym (ap (λ (y : ClientProgram). y.calls) e);
      client = sym (ap (λ (y : ClientProgram). y.client) e) ∙ ap (λ l. client_of l globals.1) same;
      loaded = (map, mapped, loaded ∙ ap some same);
    }

prepared :
    (m : ClientMachine) (defaults : Settings) (x : ClientProgram)
    → main m defaults ≡ runs x
    → IsPrepared m x.settings x.cores x.calls x
unfolding main
prepared m defaults x h =
    let (s, interval, ports, cores, calls, _, made) =
      after_eal-runs m.machine.dpdk parse_client_option (prepare_client m) defaults m.machine.eal x
        h in
    let p = prepare_client-IsPrepared m s interval cores calls x made in
    subst (λ s'. IsPrepared m s' x.cores x.calls x) (sym p.settings)
      (subst (λ cs. IsPrepared m s cs x.calls x) (sym p.cores)
        (subst (λ cs. IsPrepared m s cores cs x) (sym p.calls) p))

-- Where `main` of the client comes to the launch of its cores with at least one sending core and at most
-- 8 clients: there are no fewer clients than sending cores; each client has what `get_traces` makes
-- of its own file, in which no lock stands twice among entries of a transaction that stand together;
-- each of its transactions expects as many locks as its trace asks for; it is in normal operation; and
-- all transactions are sound.
pub main-IsLoaded :
    (m : ClientMachine) (defaults : Settings) (x : ClientProgram) (cid txn cur_tsc : ℕ)
    → main m defaults ≡ runs x
    → x.settings.n_rcv_cores < length x.cores
    → x.settings.client_num ≤ max_client_num
    → cid < x.settings.client_num
    → (length x.cores - x.settings.n_rcv_cores ≤ x.settings.client_num)
      × ((batch_map : Option (ℕ → ℕ)) × (batches m.machine x.settings ≡ some batch_map)
          × (load_file m.machine.has_memory
                (setup_of x.settings batch_map)
                (m.trace_files (trace_file x.settings (length x.cores) cid))
                (no_loads cid)
              ≡ some (x.loads cid)))
      × IsLoaded (x.loads cid)
      × (((x.client cur_tsc).txns cid txn).locks ≡ requests txn (map key_of (x.loads cid).entries))
      × ((x.client cur_tsc).failure_act cid ≡ failure_normal)
      × AllSound (x.client cur_tsc)
main-IsLoaded m defaults x cid txn cur_tsc h sends few lt =
    let p = prepared m defaults x h in
    let n = x.settings.client_num in
    let senders = length x.cores - x.settings.n_rcv_cores in
    let globals = after_memset m n (no_loads, no_client) in
    let first : globals ≡ (no_loads, normal_client n) = after_memset-few m n few in
    let (batch_map, mapped, ran') = p.loaded in
    let u = setup_of x.settings batch_map in
    let pos : 0 < senders = omega (arith, sends) in
    let load = load_client m x.settings u (length x.cores) in
    let ran : load_cores load n senders senders 0 no_loads ≡ some x.loads =
      subst (λ (g : Loads × Client). load_cores load n senders senders 0 g.0 ≡ some x.loads) first
        ran' in
    let client : x.client ≡ client_of x.loads (normal_client n) =
      p.client ∙ ap (λ (g : Loads × Client). client_of x.loads g.1) first in
    elim (Bool-cases (ltb n senders)) [
      | inl fewer ↦
          let stuck =
            too_few m x.settings u (length x.cores) n senders senders no_loads
              (ground (arith, fewer)) (omega (arith, few)) pos in
          absurd (let e : none ≡ some x.loads = sym stuck ∙ ran in cc)
      | inr enough ↦
          let le : senders ≤ n = ground (arith, enough) in
          let all =
            load_cores-visit_each load n senders senders 0 no_loads pos le (omega (arith, few))
              (zero-add senders) in
          let nothing : 0 * n / senders ≡ 0 = grind (arith, zero-div senders) in
          let whole : n - 0 ≡ n = omega arith in
          let visits : visit_each load (range_from n 0) no_loads ≡ some x.loads =
            subst (λ c. visit_each load (range_from c 0) no_loads ≡ some x.loads) whole
              (subst (λ a. visit_each load (range_from (n - a) a) no_loads ≡ some x.loads) nothing
                (sym all ∙ ran)) in
          let made =
            gets m x.settings u (length x.cores) n 0 cid no_loads x.loads visits (omega arith)
              (omega (arith, lt)) in
          let is_loaded =
            load_file-IsLoaded m.machine.has_memory u
              (m.trace_files (trace_file x.settings (length x.cores) cid)) (no_loads cid)
              (x.loads cid) (no_loads-IsLoaded cid) (no_loads-IsLoaded cid) made in
          (
            le,
            (batch_map, mapped, made),
            is_loaded,
            ap (λ (c : ℕ → Client). ((c cur_tsc).txns cid txn).locks) client
                ∙ is_loaded.counted txn,
            ap (λ (c : ℕ → Client). (c cur_tsc).failure_act cid) client ∙ rw (lt→ltb cid n lt) refl,
            subst (λ (c : ℕ → Client). AllSound (c cur_tsc)) (sym client)
                (λ i j. record { counted = refl; below = omega arith }),
          )
    ]
