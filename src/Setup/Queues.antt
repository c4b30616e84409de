-- ===== src/Setup/Queues.antt =====
-- The queues that a server's cores work on are those that `nc_init` sets up.
use net_lock.Common.{
  ℕ, ◌*◌, ◌/◌, ◌%◌, ◌<◌, ◌≡◌, ◌∙◌, refl, sym, ap, subst, List, [], ◌∷◌, ◌++◌, map, false, arith,
  length, append_assoc, branches, Bool-cases, Option-cases, inl, inr, ◌==◌, ==→eq, ltb,
  if◌then◌else◌,
}
use native.Mathlib.Nat.{div-add-mod, div-eq_of_eq-mul_right, zero-add, one-mul}
use net_lock.Setup.{
  Call, configure, rx_queue_setup, tx_queue_setup, start_port, Dpdk, Settings, Lcore, Initialised,
  Offsets, nc_max_lcores, ready, range_from, assign, port_calls, all_calls, nc_init, set_up_ports,
  first_failed, rx_queues_per_port, select, in_mask,
}
use net_lock.Setup.Assigned.{flat, of_port, receives_from, sends_to, spread, all_ports}

-- The queues that are set up, with their ports.
abbrev pub rx_set_up : List Call → List (ℕ × ℕ)
rx_set_up [] = []
rx_set_up (rx_queue_setup p q ∷ cs) = (p, q) ∷ rx_set_up cs
rx_set_up (configure p r t ∷ cs) = rx_set_up cs
rx_set_up (tx_queue_setup p q ∷ cs) = rx_set_up cs
rx_set_up (start_port p ∷ cs) = rx_set_up cs

abbrev pub tx_set_up : List Call → List (ℕ × ℕ)
tx_set_up [] = []
tx_set_up (tx_queue_setup p q ∷ cs) = (p, q) ∷ tx_set_up cs
tx_set_up (configure p r t ∷ cs) = tx_set_up cs
tx_set_up (rx_queue_setup p q ∷ cs) = tx_set_up cs
tx_set_up (start_port p ∷ cs) = tx_set_up cs

module _ (p : ℕ) where
  rx-rx :
      (qs : List ℕ) (cs : List Call)
      → rx_set_up (map (rx_queue_setup p) qs ++ cs) ≡ of_port p qs ++ rx_set_up cs
  rx-rx [] cs = refl
  rx-rx (q ∷ qs) cs = ap (λ r. (p, q) ∷ r) (rx-rx qs cs)

  rx-tx :
      (qs : List ℕ) (cs : List Call) → rx_set_up (map (tx_queue_setup p) qs ++ cs) ≡ rx_set_up cs
  rx-tx [] cs = refl
  rx-tx (q ∷ qs) cs = rx-tx qs cs

  tx-rx :
      (qs : List ℕ) (cs : List Call) → tx_set_up (map (rx_queue_setup p) qs ++ cs) ≡ tx_set_up cs
  tx-rx [] cs = refl
  tx-rx (q ∷ qs) cs = tx-rx qs cs

  tx-tx :
      (qs : List ℕ) (cs : List Call)
      → tx_set_up (map (tx_queue_setup p) qs ++ cs) ≡ of_port p qs ++ tx_set_up cs
  tx-tx [] cs = refl
  tx-tx (q ∷ qs) cs = ap (λ r. (p, q) ∷ r) (tx-tx qs cs)

-- The calls for one port, before those for the others.
port-append :
    (rx tx p : ℕ) (cs : List Call)
    → port_calls rx tx p ++ cs
      ≡ configure p rx tx
        ∷ (map (rx_queue_setup p) (range_from rx 0)
            ++ (map (tx_queue_setup p) (range_from tx 0) ++ start_port p ∷ cs))
port-append rx tx p cs =
    ap (λ r. configure p rx tx ∷ r)
      (append_assoc (map (rx_queue_setup p) (range_from rx 0)) _ cs
        ∙ ap (λ r. map (rx_queue_setup p) (range_from rx 0) ++ r)
            (append_assoc (map (tx_queue_setup p) (range_from tx 0)) _ cs))

calls-spread :
    (rx tx : ℕ) (ps : List ℕ)
    → (rx_set_up (all_calls rx tx ps) ≡ spread rx ps)
      × (tx_set_up (all_calls rx tx ps) ≡ spread tx ps)
calls-spread rx tx [] = (refl, refl)
calls-spread rx tx (p ∷ ps) =
    let cs = all_calls rx tx ps in
    let (ih_rx, ih_tx) = calls-spread rx tx ps in
    let e = port-append rx tx p cs in
    (
      ap rx_set_up e
          ∙ (rx-rx p (range_from rx 0) _
              ∙ ap (λ r. of_port p (range_from rx 0) ++ r)
                  (rx-tx p (range_from tx 0) (start_port p ∷ cs) ∙ ih_rx)),
      ap tx_set_up e
          ∙ (tx-rx p (range_from rx 0) _
              ∙ (tx-tx p (range_from tx 0) (start_port p ∷ cs)
                  ∙ ap (λ r. of_port p (range_from tx 0) ++ r) ih_tx)),
    )

-- What a server that is set up works on.
abbrev pub Owns : List Lcore → List Call → Type 0
Owns cores calls =
    (flat receives_from cores ≡ rx_set_up calls) × (flat sends_to cores ≡ tx_set_up calls)

-- An end of `nc_init`, if it is ready.
abbrev Works : Initialised → Type 0
Works (ready ports cores calls) = Owns cores calls
Works _ = Unit

assigned-Works :
    (s : Settings) (ports is : List ℕ) (tx : ℕ)
    → s.is_client ≡ false
    → 0 < tx
    → length is ≡ length ports * tx
    → Owns
        (assign s ports tx is
          (record { portid_offset = 0; rx_queue_id = 0; tx_queue_id = 0; vid = 0 }))
        (all_calls (4 * tx) tx ports)
assigned-Works s ports is tx server pos e =
    let (rx_calls, tx_calls) = calls-spread (4 * tx) tx ports in
    let once : 1 * tx ≡ tx = omega arith in
    (
      all_ports s ports server 4 receives_from (λ i v p t. refl) tx ports is 0 0 pos e
            (λ j. rw (zero-add j) refl)
          ∙ sym rx_calls,
      all_ports s ports server 1 sends_to (λ i v p t. rw (one-mul t) refl) tx ports is 0 0 pos e
            (λ j. rw (zero-add j) refl)
          ∙ (ap (λ k. spread k ports) once ∙ sym tx_calls),
    )

four_times :
    (s : Settings) (k n : ℕ)
    → s.is_client ≡ false
    → 0 < n
    → k ≡ n * (k / n)
    → rx_queues_per_port s k n ≡ 4 * (k / n)
four_times s k n server pos whole =
    let e : 4 * k ≡ n * (4 * (k / n)) = grind (arith, whole) in
    rw server (div-eq_of_eq-mul_right pos e)

set_up_ports-Works :
    (dpdk : Dpdk) (s : Settings) (ports is : List ℕ)
    → s.is_client ≡ false
    → Works (set_up_ports dpdk s ports is)
unfolding set_up_ports
set_up_ports-Works dpdk s ports is server =
    let n = length ports in
    let tx = length is / n in
    let rx = rx_queues_per_port s (length is) n in
    let first : Offsets = record { portid_offset = 0; rx_queue_id = 0; tx_queue_id = 0; vid = 0 } in
    elim (Bool-cases (n == 0)) [
      | inl empty ↦ rw empty tt
      | inr some_port ↦ elim (Bool-cases (length is % n == 0)) [
        | inr uneven ↦ rw (some_port, uneven) tt
        | inl even ↦ elim (Bool-cases (ltb rx 4)) [
          | inl few ↦ rw (some_port, even, few) tt
          | inr enough ↦
              let pos : 0 < n = ground (arith, some_port) in
              let whole : length is ≡ n * tx =
                omega (arith, div-add-mod (length is) n, ==→eq (length is % n) 0 even) in
              let four : rx ≡ 4 * tx = four_times s (length is) n server pos whole in
              let some_tx : 0 < tx = ground (arith, enough, four) in
              elim (Option-cases (first_failed dpdk.fails (all_calls rx tx ports))) [
                | inr (c, fails) ↦ rw (some_port, even, enough, fails) tt
                | inl fine ↦
                    rw (some_port, even, enough, fine)
                      (branches Works (n == 0) tt (
                        subst (λ k. Owns (assign s ports tx is first) (all_calls k tx ports))
                          (sym four) (assigned-Works s ports is tx server some_tx (grind arith))))
              ]
        ]
      ]
    ]

nc_init-Works : (dpdk : Dpdk) (s : Settings) → s.is_client ≡ false → Works (nc_init dpdk s)
unfolding nc_init
nc_init-Works dpdk s server =
    branches Works dpdk.has_pool
      (branches Works (dpdk.dev_count == 0) tt (
        set_up_ports-Works dpdk s
          (select (in_mask s.enabled_port_mask) (
            range_from
              (if ltb dpdk.max_eth_ports dpdk.dev_count then dpdk.max_eth_ports else dpdk.dev_count)
              0))
          (select dpdk.lcore_is_enabled (range_from nc_max_lcores 0)) server))
      tt

-- Where `nc_init` makes a server ready, whatever ports are enabled and cores run: the receive
-- queues that the cores poll, in the order of the cores, are the receive queues that were set up,
-- in the order of the calls, and so are the queues that they send to.
pub nc_init-Owns :
    (dpdk : Dpdk) (s : Settings) (ports : List ℕ) (cores : List Lcore) (calls : List Call)
    → s.is_client ≡ false
    → nc_init dpdk s ≡ ready ports cores calls
    → Owns cores calls
nc_init-Owns dpdk s ports cores calls server e = subst Works e (nc_init-Works dpdk s server)
