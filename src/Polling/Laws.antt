-- ===== src/Polling/Laws.antt =====
-- The polling of the queues against the packets handled one after the other, with no table.
use net_lock.Common.{
  ℕ, ◌+◌, ◌%◌, ◌^◌, lt→ltb, ◌<◌, ◌≤◌, ◌≡◌, ◌∙◌, inl, inr, refl, sym, ap, subst, List, [], ◌∷◌, ◌++◌,
  Option, none, some, All, arith, true, ltb, leb, ◌==◌, length, append-nil, append_assoc,
  Bool-cases, Option-cases, eq-of_some,
}
use mathlib.Core.List.{Perm}
use mathlib.Core.List.Perm
use net_lock.Wire.{Packet}
use net_lock.Transmit.{Core, Card, nc_max_burst_size, send_pkt_burst, put_packet, enqueue_pkt, each}
use net_lock.Transmit.Table.{TakesOffered, packets, send_pkt_burst-packets}
use net_lock.Transmit.Burst.{enqueue_pkt-Perm}
use net_lock.Polling.{drain_table, on_burst, on_queues, handle_all, all_of, poll}

-- The table has room, every packet given before and every answer is sent, freed or in the table,
-- each once, and what stands in the table came last.
pub record Puts (c : Core) (out : List Packet) (c' : Core) : Type 0 where
  pub room : length c'.table < nc_max_burst_size
  pub kept : Perm (packets c') (packets c ++ out)
  pub earlier : List Packet
  pub latest : c.table ++ out ≡ earlier ++ c'.table

pub Puts-nil : (c : Core) → length c.table < nc_max_burst_size → Puts c [] c
Puts-nil c room = record {
  room = room;
  kept = subst (Perm (packets c)) (sym (append-nil (packets c))) Perm.rfl;
  earlier = [];
  latest = append-nil c.table;
}

pub Puts-append :
    {c c' c'' : Core} {out out' : List Packet}
    → Puts c out c'
    → Puts c' out' c''
    → Puts c (out ++ out') c''
Puts-append {c = c} {c' = c'} {c'' = c''} {out = out} {out' = out'} p q = record {
  room = q.room;
  kept = Perm.trans q.kept (
      subst (Perm (packets c' ++ out')) (append_assoc (packets c) out out')
        (Perm.append_right out' p.kept));
  earlier = p.earlier ++ q.earlier;
  latest =
      sym (append_assoc c.table out out')
      ∙ (ap (λ t. t ++ out') p.latest
          ∙ (append_assoc p.earlier c'.table out'
              ∙ (ap (λ t. p.earlier ++ t) q.latest
                  ∙ sym (append_assoc p.earlier q.earlier c''.table))));
}

enqueue_pkt-latest :
    (card : Card) (p : Packet) (c c' : Core)
    → enqueue_pkt card p c ≡ some c'
    → (before : List Packet) × (c.table ++ p ∷ [] ≡ before ++ c'.table)
unfolding enqueue_pkt put_packet send_pkt_burst
enqueue_pkt-latest card p c c' h = elim (Bool-cases (ltb (length c.table) 32)) [
  | inr full ↦ absurd (ground (arith, h, full))
  | inl room ↦ elim (Bool-cases (length (c.table ++ p ∷ []) == 32)) [
    | inl last ↦
        (c.table ++ p ∷ [], ground (arith, h, room, last, append-nil {0} (c.table ++ p ∷ [])))
    | inr more ↦ ([], ground (arith, h, room, more))
  ]
]

each-latest :
    (card : Card) (ps : List Packet) (c c' : Core)
    → each (enqueue_pkt card) ps c ≡ some c'
    → (before : List Packet) × (c.table ++ ps ≡ before ++ c'.table)
unfolding each
each-latest card [] c c' h = ([], append-nil c.table ∙ ap (λ (k : Core). k.table) (eq-of_some h))
each-latest card (p ∷ ps) c c' h = elim (Option-cases (enqueue_pkt card p c)) [
  | inl fault ↦ absurd (
      let stuck : none ≡ some c' =
        subst (λ o. elim o [ none ↦ none | some k ↦ each (enqueue_pkt card) ps k ] ≡ some c') fault
          h in
      cc)
  | inr (k, put) ↦
      let (first, e) = enqueue_pkt-latest card p c k put in
      let (second, e') = each-latest card ps k c' (
        subst (λ o. elim o [ none ↦ none | some k ↦ each (enqueue_pkt card) ps k ] ≡ some c') put
          h) in
      (
        first ++ second,
        sym (append_assoc c.table (p ∷ []) ps)
            ∙ (ap (λ t. t ++ ps) e
                ∙ (append_assoc first k.table ps
                    ∙ (ap (λ t. first ++ t) e' ∙ sym (append_assoc first second c'.table)))),
      )
]

pub each-Puts :
    (card : Card) (ps : List Packet) (c : Core)
    → TakesOffered card
    → length c.table < nc_max_burst_size
    → (c' : Core) × ((each (enqueue_pkt card) ps c ≡ some c') × Puts c ps c')
unfolding packets
each-Puts card ps c takes room =
    let (c', (ran, (room', kept))) = enqueue_pkt-Perm card ps c takes room in
    let (earlier, latest) = each-latest card ps c c' ran in
    (c', (ran, record { room = room'; kept = kept; earlier = earlier; latest = latest }))

pub drain_table-Puts :
    (card : Card) (drain_tsc cur_tsc next : ℕ) (c : Core)
    → TakesOffered card
    → length c.table < nc_max_burst_size
    → Puts c [] (drain_table card drain_tsc cur_tsc next c).1
unfolding drain_table
drain_table-Puts card drain_tsc cur_tsc next c takes room = elim (Bool-cases (ltb next cur_tsc)) [
  | inr early ↦ rw early (Puts-nil c room)
  | inl due ↦
      let b = send_pkt_burst-packets card c takes in
      rw due (record {
        room = omega (arith, b.0);
        kept = subst (Perm (packets (send_pkt_burst card c))) (sym (append-nil (packets c))) b.1;
        earlier = c.table;
        latest = refl;
      })
]

pub drain_table-due :
    (card : Card) (drain_tsc cur_tsc next : ℕ) (c : Core)
    → next < cur_tsc
    → ((drain_table card drain_tsc cur_tsc next c).0 ≡ (next + drain_tsc) % 2 ^ 64)
      × ((drain_table card drain_tsc cur_tsc next c).1.table ≡ [])
unfolding drain_table send_pkt_burst
drain_table-due card drain_tsc cur_tsc next c due = rw (lt→ltb _ _ due) (refl, refl)

module _ {A S : Type 0} (card : Card) (handle : A → S → Option (S × List Packet)) where
  -- The first packet of a row that is handled to its end.
  handle_all-parts :
      (a : A) (rest : List A) (s s' : S) (out : List Packet)
      → handle_all handle (a ∷ rest) s ≡ some (s', out)
      → (s1 : S) × (out1 out2 : List Packet) × (handle a s ≡ some (s1, out1))
        × (handle_all handle rest s1 ≡ some (s', out2))
        × (out ≡ out1 ++ out2)
  unfolding handle_all
  handle_all-parts a rest s s' out h = elim (Option-cases (handle a s)) [
    | inl fault ↦ absurd (ground (arith, h, fault))
    | inr ((s1, out1), done) ↦ elim (Option-cases (handle_all handle rest s1)) [
      | inl fault ↦ absurd (ground (arith, h, done, fault))
      | inr ((s2, out2), more) ↦
          (s1, out1, out2, done, ground (arith, h, done, more), ground (arith, h, done, more))
    ]
  ]

  pub handle_all-append :
      (xs ys : List A) (s s' : S) (out : List Packet)
      → handle_all handle (xs ++ ys) s ≡ some (s', out)
      → (s1 : S) × (out1 out2 : List Packet) × (handle_all handle xs s ≡ some (s1, out1))
        × (handle_all handle ys s1 ≡ some (s', out2))
        × (out ≡ out1 ++ out2)
  unfolding handle_all
  handle_all-append [] ys s s' out h = (s, [], out, refl, h, refl)
  handle_all-append (x ∷ xs) ys s s' out h =
      let (s1, out1, out2, done, more, e) = handle_all-parts x (xs ++ ys) s s' out h in
      let (s2, out3, out4, first, second, e') = handle_all-append xs ys s1 s' out2 more in
      (
        s2,
        out1 ++ out3,
        out4,
        rw (handle_all, done, first) refl,
        second,
        e ∙ (ap (λ t. out1 ++ t) e' ∙ sym (append_assoc out1 out3 out4)),
      )

  -- A burst does what its packets do one after the other, and their answers are put in their order.
  pub on_burst-Puts :
      (b : List A) (s s' : S) (c : Core) (out : List Packet)
      → TakesOffered card
      → length c.table < nc_max_burst_size
      → handle_all handle b s ≡ some (s', out)
      → (c' : Core) × ((on_burst card handle b (s, c) ≡ some (s', c')) × Puts c out c')
  unfolding on_burst handle_all
  on_burst-Puts [] s s' c out takes room h =
      (c, (ground (arith, h), subst (λ o. Puts c o c) (ground (arith, h)) (Puts-nil c room)))
  on_burst-Puts (a ∷ rest) s s' c out takes room h =
      let (s1, out1, out2, done, more, e) = handle_all-parts a rest s s' out h in
      let (c1, (ran, p)) = each-Puts card out1 c takes room in
      let (c2, (ran', q)) = on_burst-Puts rest s1 s' c1 out2 takes p.room more in
      (c2, (rw (on_burst, done, ran) ran', subst (λ o. Puts c o c2) (sym e) (Puts-append p q)))

  pub on_queues-Puts :
      (bs : List (List A)) (s s' : S) (c : Core) (out : List Packet)
      → TakesOffered card
      → length c.table < nc_max_burst_size
      → All (λ (b : List A). length b ≤ nc_max_burst_size) bs
      → handle_all handle (all_of bs) s ≡ some (s', out)
      → (c' : Core) × ((on_queues card handle bs (s, c) ≡ some (s', c')) × Puts c out c')
  unfolding on_queues all_of handle_all
  on_queues-Puts [] s s' c out takes room fit h =
      (c, (ground (arith, h), subst (λ o. Puts c o c) (ground (arith, h)) (Puts-nil c room)))
  on_queues-Puts (b ∷ bs) s s' c out takes room fit h =
      let (s1, out1, out2, first, second, e) = handle_all-append b (all_of bs) s s' out h in
      let (c1, (ran, p)) = on_burst-Puts b s s1 c out1 takes room first in
      let (c2, (ran', q)) = on_queues-Puts bs s1 s' c1 out2 takes p.room fit.1 second in
      (
        c2,
        (
          let small : leb (length b) 32 ≡ true = ground (arith, fit.0) in
              rw (on_queues, small, ran) ran',
          subst (λ o. Puts c o c2) (sym e) (Puts-append p q),
        ),
      )

  -- A round of polling does what the packets of its bursts do one after the other. If the time to
  -- send the table has come, then what stands in the table at the end are answers of the round.
  pub poll-Puts :
      (drain_tsc cur_tsc next : ℕ) (bs : List (List A)) (s s' : S) (c : Core) (out : List Packet)
      → TakesOffered card
      → length c.table < nc_max_burst_size
      → All (λ (b : List A). length b ≤ nc_max_burst_size) bs
      → handle_all handle (all_of bs) s ≡ some (s', out)
      → (c' : Core) × (poll card handle drain_tsc cur_tsc bs next s c
          ≡ some ((drain_table card drain_tsc cur_tsc next c).0, s', c'))
        × Puts c out c'
        × (next < cur_tsc → (earlier : List Packet) × (out ≡ earlier ++ c'.table))
  unfolding poll
  poll-Puts drain_tsc cur_tsc next bs s s' c out takes room fit h =
      let p = drain_table-Puts card drain_tsc cur_tsc next c takes room in
      let c1 = (drain_table card drain_tsc cur_tsc next c).1 in
      let (c2, (ran, q)) = on_queues-Puts bs s s' c1 out takes p.room fit h in
      (
        c2,
        rw (poll, ran) refl,
        Puts-append p q,
        λ due. (
          q.earlier,
          ap (λ t. t ++ out) (sym (drain_table-due card drain_tsc cur_tsc next c due).1) ∙ q.latest,
        ),
      )
