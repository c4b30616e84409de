-- ===== src/Transmit/Table.antt =====
-- What a burst does with the packets of the table.
use net_lock.Common.{
  ℕ, zero, suc, ◌+◌, ◌-◌, ◌≤◌, ◌≡◌, inl, inr, refl, ap, ◌∙◌, sym, List, [], ◌∷◌, ◌++◌, arith,
  length, take, drop, take-append-drop, append-nil, append_assoc, if◌then◌else◌, ltb, Bool-cases,
  subst,
}
use native.Mathlib.Numerals.{add-one}
use mathlib.Core.List.{Perm, perm_middle}
use mathlib.Core.List.Perm
use net_lock.Wire.{Packet}
use net_lock.Transmit.{Core, Card, free_loop, send_pkt_burst}

-- What `rte_eth_tx_burst` documents: it takes at most what it is offered.
abbrev pub TakesOffered : Card → Type 0
TakesOffered card = (ps : List Packet) → card ps ≤ length ps

get_elem?-shift :
    (k r : ℕ) (p : Packet) (ps : List Packet) → free_loop k (suc r) (p ∷ ps) ≡ free_loop k r ps
unfolding free_loop
get_elem?-shift zero r p ps = refl
get_elem?-shift (suc k) r p ps = grind (arith, add-one, get_elem?-shift k)

-- The loop frees exactly the packets that the card has not taken.
free_loop-drop : (k r : ℕ) (ps : List Packet) → k + r ≡ length ps → free_loop k r ps ≡ drop r ps
unfolding free_loop
free_loop-drop zero zero [] h = refl
free_loop-drop k (suc r) [] h = ground arith
free_loop-drop (suc k) zero [] h = ground arith
free_loop-drop zero zero (p ∷ ps) h = ground arith
free_loop-drop (suc k) zero (p ∷ ps) h =
    ap (λ l. p ∷ l) (get_elem?-shift k 0 p ps ∙ free_loop-drop k 0 ps (omega (arith, h)))
free_loop-drop k (suc r) (p ∷ ps) h =
    get_elem?-shift k r p ps ∙ free_loop-drop k r ps (omega (arith, h))

append-Perm : {A : Type 0} (xs ys zs : List A) → Perm (xs ++ (ys ++ zs)) (ys ++ (xs ++ zs))
append-Perm [] ys zs = Perm.rfl
append-Perm (x ∷ xs) ys zs =
    Perm.trans (Perm.cons x (append-Perm xs ys zs)) (Perm.symm (perm_middle ys (xs ++ zs)))

-- Every packet that a core was ever given.
unfoldable pub packets : Core → List Packet
packets c = c.sent ++ (c.freed ++ c.table)

freed-drop :
    (f t : List Packet) (r : ℕ)
    → r ≤ length t
    → (if ltb r (length t) then f ++ free_loop (length t - r) r t else f) ≡ f ++ drop r t
unfolding free_loop
freed-drop f t r h = elim (Bool-cases (ltb r (length t))) [
  | inl less ↦ rw less (ap (λ u. f ++ u) (free_loop-drop (length t - r) r t (omega (arith, h))))
  | inr not_less ↦
      rw not_less (sym (append-nil f) ∙ ap (λ u. f ++ u) (free_loop-drop 0 r t (ground arith)))
]

-- A burst empties the table, and each of its packets is sent or freed.
pub send_pkt_burst-packets :
    (card : Card) (c : Core)
    → TakesOffered card
    → (length (send_pkt_burst card c).table ≡ 0)
      × Perm (packets (send_pkt_burst card c)) (packets c)
unfolding packets send_pkt_burst
send_pkt_burst-packets card c takes =
    let r = card c.table in
    (
      refl,
      rw (freed-drop c.freed c.table r (takes c.table), append-nil, append_assoc)
          (Perm.append_left c.sent (
            subst (λ u. Perm (take r c.table ++ (c.freed ++ drop r c.table)) (c.freed ++ u))
              (take-append-drop r c.table)
              (append-Perm (take r c.table) c.freed (drop r c.table)))),
    )
