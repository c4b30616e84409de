-- ===== src/Start/Clients/Loading.antt =====
-- The traces that a client has loaded when it starts.
use net_lock.Common.{
  ℕ, zero, suc, ◌+◌, ◌-◌, ◌*◌, ◌/◌, ◌<◌, ◌≤◌, ◌≡◌, ◌∙◌, inl, inr, refl, sym, ap, subst, List, [],
  ◌∷◌, ◌++◌, Option, none, some, Bool, true, false, arith, ◌&&◌, ◌||◌, if◌then◌else◌, take,
  Bool-cases, eq-of_some,
}
use native.Mathlib.Nat.{mul-div_right}
use net_lock.Setup.{range_from}
use net_lock.Setup.Assigned.{range_from-add}
use net_lock.Client.Cores.{and_then, client_index_s, client_index_e}
use net_lock.Client.Cores.Shares.{visit_each, same_next, begin-suc, index_s, index_e, begin-le}
use net_lock.Traces.{Setup, Row, Loaded, get_traces}
use net_lock.Traces.Requests.{IsLoaded, get_traces-IsLoaded}
use net_lock.Traces.Files.{
  Source, Contents, load_counted, load_rows, load_file, within_map, within_counts, no_entries,
}
use net_lock.Start.Clients.{Loads, load_clients, load_cores}

load_rows-IsLoaded :
    (has_memory : Bool) (u : Setup) (rows : List Row) (locks : ℕ → ℕ) (l : Loaded)
    → IsLoaded (record { entries = []; locks = locks })
    → load_rows has_memory u rows locks ≡ some l
    → IsLoaded l
unfolding load_rows
load_rows-IsLoaded has_memory u rows locks l h e =
    let start : Loaded = record { entries = []; locks = locks } in
    let l' = get_traces u rows start in
    let fine =
      within_map u rows && (within_counts l'.entries && (has_memory || no_entries l'.entries)) in
    elim (Bool-cases fine) [
      | inl holds ↦
          let e' : some l' ≡ some l = subst (λ b. (if b then some l' else none) ≡ some l) holds e in
          subst IsLoaded (eq-of_some e') (get_traces-IsLoaded u rows start h)
      | inr fails ↦ absurd (
          let e' : none ≡ some l = subst (λ b. (if b then some l' else none) ≡ some l) fails e in
          cc)
    ]

head-IsLoaded :
    (has_memory : Bool) (u : Setup) (k : ℕ) (head : Bool) (rows : List Row) (l0 l : Loaded)
    → IsLoaded l0
    → IsLoaded (record { entries = []; locks = l0.locks })
    → (if head then load_rows has_memory u (take (k - 2) rows) l0.locks else some l0) ≡ some l
    → IsLoaded l
head-IsLoaded has_memory u k true rows l0 l h h' e =
    load_rows-IsLoaded has_memory u (take (k - 2) rows) l0.locks l h' e
head-IsLoaded has_memory u k false rows l0 l h h' e = subst IsLoaded (eq-of_some e) h

counted-IsLoaded :
    (has_memory : Bool) (u : Setup) (count : Option ℕ) (opened : Option Contents) (l0 l : Loaded)
    → IsLoaded l0
    → IsLoaded (record { entries = []; locks = l0.locks })
    → load_counted has_memory u count opened l0 ≡ some l
    → IsLoaded l
counted-IsLoaded has_memory u none o l0 l h h' e = subst IsLoaded (eq-of_some e) h
counted-IsLoaded has_memory u (some k) none l0 l h h' e = cc
counted-IsLoaded has_memory u (some k) (some c) l0 l h h' e =
    head-IsLoaded has_memory u k c.has_head c.rows l0 l h h' e

-- A client's trace asks for no lock twice in a transaction, and is counted.
pub load_file-IsLoaded :
    (has_memory : Bool) (u : Setup) (f : Source) (l0 l : Loaded)
    → IsLoaded l0
    → IsLoaded (record { entries = []; locks = l0.locks })
    → load_file has_memory u f l0 ≡ some l
    → IsLoaded l
unfolding load_file
load_file-IsLoaded has_memory u f l0 l h h' e =
    counted-IsLoaded has_memory u f.line_c f.opened l0 l h h' e

and_then_assoc :
    {S : Type 0} (o : Option S) (f g h : S → Option S)
    → ((s : S) → f s ≡ and_then (g s) h)
    → and_then o f ≡ and_then (and_then o g) h
and_then_assoc none f g h e = refl
and_then_assoc (some s) f g h e = e s

visit_each-append :
    {S : Type 0} (body : ℕ → S → Option S) (xs ys : List ℕ) (s : S)
    → visit_each body (xs ++ ys) s ≡ and_then (visit_each body xs s) (visit_each body ys)
visit_each-append body [] ys s = refl
visit_each-append body (x ∷ xs) ys s =
    and_then_assoc (body x s) (visit_each body (xs ++ ys)) (visit_each body xs) (visit_each body ys)
      (visit_each-append body xs ys)

pub load_clients-visit_each :
    (load : ℕ → Loads → Option Loads) (n j : ℕ) (loads : Loads)
    → load_clients load n j loads ≡ visit_each load (range_from n j) loads
unfolding load_clients
load_clients-visit_each load zero j loads = refl
load_clients-visit_each load (suc n) j loads =
    same_next (load j loads) _ _ (load_clients-visit_each load n (j + 1))

-- Where no core has fewer than one client, the cores load the clients in turn.
pub load_cores-visit_each :
    (load : ℕ → Loads → Option Loads) (n m rounds k : ℕ) (loads : Loads)
    → 0 < m
    → m ≤ n
    → n < 9
    → k + rounds ≡ m
    → load_cores load n m rounds k loads
      ≡ visit_each load (range_from (n - k * n / m) (k * n / m)) loads
unfolding load_cores
load_cores-visit_each load n m zero k loads pos few fits at =
    let all : k * n / m ≡ n = let e : k ≡ m = omega (arith, at) in rw e (mul-div_right n pos) in
    rw all (let e : n - n ≡ 0 = omega arith in rw e refl)
load_cores-visit_each load n m (suc rounds) k loads pos few fits at =
    let a = k * n / m in
    let b = (k + 1) * n / m in
    let lt : k < m = omega (arith, at) in
    let first = index_s n m pos few fits k lt in
    let count : client_index_e n m k + 1 - client_index_s n m k ≡ b - a =
      rw (index_e n m pos few fits k lt, first) refl in
    let split : (b - a) + (n - b) ≡ n - a = omega (
      arith,
      begin-suc n m pos few fits k,
      begin-le n m pos few fits (k + 1) (omega (arith, lt)),
    ) in
    let here : a + (b - a) ≡ b = omega (arith, begin-suc n m pos few fits k) in
    rw (count, first, load_clients-visit_each load (b - a) a loads)
      (same_next (visit_each load (range_from (b - a) a) loads) _ _
          (λ l. load_cores-visit_each load n m rounds (k + 1) l pos few fits (omega (arith, at)))
        ∙ sym (visit_each-append load (range_from (b - a) a) (range_from (n - b) b) loads)
        ∙ ap (λ js. visit_each load js loads)
            (subst (λ j. range_from (b - a) a ++ range_from (n - b) j ≡ range_from (n - a) a) here
              (sym (range_from-add (b - a) (n - b) a) ∙ ap (λ c. range_from c a) split)))
