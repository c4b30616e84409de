-- ===== src/Setup/Assigned.antt =====
-- The queues of a server's cores, in the order of the cores.
use net_lock.Common.{
  ℕ, zero, suc, ◌+◌, ◌-◌, ◌*◌, ◌%◌, ◌<◌, ◌≡◌, ◌∙◌, refl, sym, ap, ap₂, subst, List, [], ◌∷◌, ◌++◌,
  map, false, true, arith, length, take, drop, take-append-drop, length-take, length-drop,
  append_assoc, map-append, ◌==◌, ne→==, eq→==,
}
use native.Mathlib.Nat.{add-zero, zero-add, mod-eq_of_lt, mod_self}
use net_lock.Setup.{Settings, Lcore, Offsets, range_from, get_or, assign, n_rx_queue, next_offsets}

-- Each queue of a core, with its port, in the order of the cores.
abbrev pub flat : (Lcore → List (ℕ × ℕ)) → List Lcore → List (ℕ × ℕ)
flat f [] = []
flat f (c ∷ cs) = f c ++ flat f cs

abbrev pub of_port : ℕ → List ℕ → List (ℕ × ℕ)
of_port p qs = map (λ q. (p, q)) qs

abbrev pub receives_from : Lcore → List (ℕ × ℕ)
receives_from c = of_port c.port c.rx_queue_list

abbrev pub sends_to : Lcore → List (ℕ × ℕ)
sends_to c = (c.port, c.tx_queue_id) ∷ []

-- The queues 0, ..., `k` - 1 of every port.
abbrev pub spread : ℕ → List ℕ → List (ℕ × ℕ)
spread k [] = []
spread k (p ∷ ps) = of_port p (range_from k 0) ++ spread k ps

pub range_from-add : (a b i : ℕ) → range_from (a + b) i ≡ range_from a i ++ range_from b (i + a)
range_from-add zero b i = rw (zero-add b, add-zero i) refl
range_from-add (suc a) b i =
    let e : suc a + b ≡ suc (a + b) = omega arith in
    let d : i + suc a ≡ i + 1 + a = omega arith in
    rw (e, d) (ap (λ is. i ∷ is) (range_from-add a b (i + 1)))

module _ (s : Settings) (ports : List ℕ) (server : s.is_client ≡ false) (width : ℕ)
    (f : Lcore → List (ℕ × ℕ))
    (view : (i v p t : ℕ)
      → f (record {
        id = i;
        vid = v;
        port = p;
        tx_queue_id = t;
        rx_queue_list = range_from 4 (4 * t);
      })
        ≡ of_port p (range_from width (width * t)))
    (tx : ℕ) where
  abbrev at : (k t v : ℕ) → Offsets
  at k t v = record { portid_offset = k; rx_queue_id = 4 * t; tx_queue_id = t; vid = v }

  next-at : (k t v : ℕ) → t + 1 < tx → next_offsets tx 4 (at k t v) ≡ at k (t + 1) (v + 1)
  next-at k t v lt =
      let on : ((t + 1) % tx == 0) ≡ false = ne→== _ _ (λ z. omega (arith, mod-eq_of_lt lt, z)) in
      let e : 4 * t + 4 ≡ 4 * (t + 1) = omega arith in rw (on, e) refl

  next-at_end : (k t v : ℕ) → t + 1 ≡ tx → next_offsets tx 4 (at k t v) ≡ at (k + 1) 0 (v + 1)
  next-at_end k t v e =
      let over : ((t + 1) % tx == 0) ≡ true = eq→== _ _ (rw e (mod_self tx)) in rw over refl

  core : (i k t v : ℕ) → Lcore
  core i k t v = record {
    id = i;
    vid = v;
    port = get_or 0 ports k;
    tx_queue_id = t;
    rx_queue_list = range_from 4 (4 * t);
  }

  assign-cons :
      (i : ℕ) (is : List ℕ) (k t v : ℕ)
      → assign s ports tx (i ∷ is) (at k t v)
        ≡ core i k t v ∷ assign s ports tx is (next_offsets tx 4 (at k t v))
  unfolding assign core
  assign-cons i is k t v =
      let e : n_rx_queue s i ≡ 4 = ground (arith, server) in
      ap
        (λ (n : ℕ).
          record {
            id = i;
            vid = v;
            port = get_or 0 ports k;
            tx_queue_id = t;
            rx_queue_list = range_from n (4 * t);
          }
          ∷ assign s ports tx is (next_offsets tx n (at k t v)))
        e

  -- The queues of the cores of one port, from the core with queue `t` on.
  owned : (n k t : ℕ) → List (ℕ × ℕ)
  owned n k t = of_port (get_or 0 ports k) (range_from (width * n) (width * t))

  owned-suc : (n k t : ℕ) → owned 1 k t ++ owned n k (t + 1) ≡ owned (suc n) k t
  unfolding owned
  owned-suc n k t =
      let more : width * suc n ≡ width + width * n = grind arith in
      let start : width * (t + 1) ≡ width * t + width = grind arith in
      let once : width * 1 ≡ width = grind arith in
      rw (more, start, once, range_from-add width (width * n) (width * t))
        (sym (
          map-append (λ q. (get_or 0 ports k, q)) (range_from width (width * t))
            (range_from (width * n) (width * t + width))))

  core-owned : (i k t v : ℕ) → f (core i k t v) ≡ owned 1 k t
  unfolding core owned
  core-owned i k t v =
      let once : width * 1 ≡ width = grind arith in rw once (view i v (get_or 0 ports k) t)

  block :
      (i : ℕ) (xs ys : List ℕ) (k t v : ℕ)
      → t + suc (length xs) ≡ tx
      → flat f (assign s ports tx (i ∷ xs ++ ys) (at k t v))
        ≡ owned (suc (length xs)) k t
          ++ flat f (assign s ports tx ys (at (k + 1) 0 (v + suc (length xs))))
  block i [] ys k t v e =
      ap (flat f) (assign-cons i ys k t v)
      ∙ ap₂ ◌++◌ (core-owned i k t v)
          (ap (λ o. flat f (assign s ports tx ys o)) (next-at_end k t v (omega (arith, e))))
  block i (x ∷ xs) ys k t v e =
      let further : v + 1 + suc (length xs) ≡ v + suc (suc (length xs)) = omega arith in
      ap (flat f) (assign-cons i (x ∷ xs ++ ys) k t v)
      ∙ (ap₂ ◌++◌ (core-owned i k t v) (
            ap (λ o. flat f (assign s ports tx (x ∷ xs ++ ys) o)) (next-at k t v (omega (arith, e)))
            ∙ block x xs ys k (t + 1) (v + 1) (omega (arith, e)))
          ∙ rw (further, ← owned-suc (suc (length xs)) k t)
              (sym (append_assoc (owned 1 k t) (owned (suc (length xs)) k (t + 1)) _)))

  pub all_ports :
      (ps is : List ℕ) (k v : ℕ)
      → 0 < tx
      → length is ≡ length ps * tx
      → ((j : ℕ) → get_or 0 ports (k + j) ≡ get_or 0 ps j)
      → flat f (assign s ports tx is (at k 0 v)) ≡ spread (width * tx) ps
  unfolding assign owned
  all_ports [] [] k v pos e h = refl
  all_ports [] (i ∷ is) k v pos e h = absurd (omega (arith, e))
  all_ports (p ∷ ps) [] k v pos e h = absurd (grind arith)
  all_ports (p ∷ ps) (i ∷ is) k v pos e h =
      let m = tx - 1 in
      let rest : length is ≡ m + length ps * tx = grind arith in
      let here : length (take m is) ≡ m = omega (arith, length-take m is, rest) in
      let there : length (drop m is) ≡ length ps * tx = omega (arith, length-drop m is, rest) in
      let port : get_or 0 ports k ≡ p = subst (λ j. get_or 0 ports j ≡ p) (add-zero k) (h 0) in
      let all : suc (length (take m is)) ≡ tx = omega (arith, here, pos) in
      let split = block i (take m is) (drop m is) k 0 v (omega (arith, here, pos)) in
      let none : width * 0 ≡ 0 = grind arith in
      let later =
        λ (j : ℕ). subst (λ l. get_or 0 ports l ≡ get_or 0 ps j) (omega arith) (h (suc j)) in
      ap (λ js. flat f (assign s ports tx (i ∷ js) (at k 0 v))) (sym (take-append-drop m is))
      ∙ (split
          ∙ rw (all, port, none)
              (ap (λ qs. of_port p (range_from (width * tx) 0) ++ qs)
                (all_ports ps (drop m is) (k + 1) (v + tx) pos there later)))
