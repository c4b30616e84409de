-- ===== src/Transmit/Burst.antt =====
-- Rows of packets put into the table: where they go, and when the table overflows.
use net_lock.Common.{
  ℕ, ◌+◌, ◌≤◌, ◌<◌, ◌≡◌, ◌⊎◌, inl, inr, refl, sym, List, [], ◌∷◌, ◌++◌, Option, none, some, arith,
  length, length-append, append-nil, append_assoc, ltb, ◌==◌, Bool-cases, subst, ltb→lt, ne→==,
  lt→ltb, true, false,
}
use mathlib.Core.List.{Perm}
use mathlib.Core.List.Perm
use net_lock.Wire.{Packet}
use net_lock.Transmit.{
  Core, Card, nc_max_burst_size, send_pkt_burst, put_packet, enqueue_pkt, acquire_enqueue_pkt, each,
}
use net_lock.Transmit.Table.{TakesOffered, packets, send_pkt_burst-packets}

-- The packet is kept, and the table keeps room.
abbrev Puts : Card → ℕ → (Packet → Core → Option Core) → Type 0
Puts card limit put =
    (p : Packet) (c : Core)
    → length c.table < limit
    → (c' : Core) × ((put p c ≡ some c')
        × ((length c'.table < limit) × Perm (packets c') (packets c ++ p ∷ [])))

put_packet-Perm :
    (card : Card) (limit : ℕ)
    → TakesOffered card
    → 1 ≤ limit
    → limit ≤ 32
    → Puts card limit (put_packet card limit)
unfolding put_packet packets
put_packet-Perm card limit takes lo hi p c room =
    let c' : Core = record c { table = c.table ++ p ∷ [] } in
    let same : packets c' ≡ packets c ++ p ∷ [] = sym (rw (append_assoc, append_assoc) refl) in
    let longer : length (c.table ++ p ∷ []) ≡ length c.table + 1 = length-append c.table (p ∷ []) in
    let fits : ltb (length c.table) nc_max_burst_size ≡ true =
      lt→ltb (length c.table) 32 (omega arith) in
    elim (Bool-cases (length c'.table == limit)) [
      | inl full ↦
          let b = send_pkt_burst-packets card c' takes in
          (
            send_pkt_burst card c',
            (
              rw (fits, full) refl,
              (
                omega (arith, b.0),
                subst (λ l. Perm (packets (send_pkt_burst card c')) l) same (b.1),
              ),
            ),
          )
      | inr not_full ↦ (
        c',
        (
          rw (fits, not_full) refl,
          (ground (arith, room, longer), subst (λ l. Perm (packets c') l) same Perm.rfl),
        ),
      )
    ]

each-Perm :
    (card : Card) (limit : ℕ) (put : Packet → Core → Option Core)
    → Puts card limit put
    → (ps : List Packet) (c : Core) → length c.table < limit
    → (c' : Core) × ((each put ps c ≡ some c')
        × ((length c'.table < limit) × Perm (packets c') (packets c ++ ps)))
unfolding each
each-Perm card limit put puts [] c room =
    (c, (refl, (room, subst (Perm (packets c)) (sym (append-nil (packets c))) Perm.rfl)))
each-Perm card limit put puts (p ∷ ps) c room =
    let (c', (ran, (room', kept))) = puts p c room in
    let (c'', (ran', (room'', kept'))) = each-Perm card limit put puts ps c' room' in
    (
      c'',
      (
        rw (each, ran) ran',
        (
          room'',
          Perm.trans kept' (
              subst (Perm (packets c' ++ ps)) (append_assoc (packets c) (p ∷ []) ps)
                (Perm.append_right ps kept)),
        ),
      ),
    )

-- Where the card takes no more than it is offered: a row of packets put by `enqueue_pkt` into a table that has room
-- never writes behind its end, leaves room, and every packet is then sent, freed or in the table,
-- each once.
pub enqueue_pkt-Perm :
    (card : Card) (ps : List Packet) (c : Core)
    → TakesOffered card
    → length c.table < nc_max_burst_size
    → (c' : Core) × ((each (enqueue_pkt card) ps c ≡ some c')
        × ((length c'.table < nc_max_burst_size)
            × Perm (c'.sent ++ (c'.freed ++ c'.table)) ((c.sent ++ (c.freed ++ c.table)) ++ ps)))
unfolding enqueue_pkt packets
enqueue_pkt-Perm card ps c takes room =
    each-Perm card 32 (enqueue_pkt card) (put_packet-Perm card 32 takes (omega arith) (omega arith))
      ps c room

-- Where the card takes no more than it is offered, and a transaction takes from 1 to 32 locks: a row
-- of its requests put by `acquire_enqueue_pkt` into a table that has fewer never writes behind its
-- end, leaves fewer in it, and every packet is then sent, freed or in the table, each once.
pub acquire_enqueue_pkt-Perm :
    (card : Card) (k : ℕ) (ps : List Packet) (c : Core)
    → TakesOffered card
    → 1 ≤ k
    → k ≤ nc_max_burst_size
    → length c.table < k
    → (c' : Core) × ((each (λ p. acquire_enqueue_pkt card p k) ps c ≡ some c')
        × ((length c'.table < k)
            × Perm (c'.sent ++ (c'.freed ++ c'.table)) ((c.sent ++ (c.freed ++ c.table)) ++ ps)))
unfolding acquire_enqueue_pkt packets
acquire_enqueue_pkt-Perm card k ps c takes lo hi room =
    each-Perm card k (λ p. acquire_enqueue_pkt card p k) (put_packet-Perm card k takes lo hi) ps c
      room

-- If a transaction takes no lock, or more than 32, then no burst starts in `acquire_enqueue_pkt`, and
-- a row of packets for which 32 places are not enough is written behind the end of the table.
pub acquire_enqueue_pkt_overflow :
    (card : Card) (k : ℕ) (ps : List Packet) (c : Core)
    → (k ≡ 0) ⊎ (nc_max_burst_size < k)
    → length c.table ≤ nc_max_burst_size
    → nc_max_burst_size < length c.table + length ps
    → each (λ p. acquire_enqueue_pkt card p k) ps c ≡ none
unfolding acquire_enqueue_pkt put_packet each
acquire_enqueue_pkt_overflow card k [] c bad le many = ground arith
acquire_enqueue_pkt_overflow card k (p ∷ ps) c bad le many =
    let longer : length (c.table ++ p ∷ []) ≡ length c.table + 1 = length-append c.table (p ∷ []) in
    elim (Bool-cases (ltb (length c.table) 32)) [
      | inr no_room ↦ rw (each, acquire_enqueue_pkt, put_packet, no_room) refl
      | inl room ↦
          let less = ltb→lt (length c.table) 32 room in
          let not_full : (length (c.table ++ p ∷ []) == k) ≡ false =
            ne→== (length (c.table ++ p ∷ [])) k (λ e. grind arith) in
          rw (each, acquire_enqueue_pkt, put_packet, room, not_full)
            (acquire_enqueue_pkt_overflow card k ps (record c { table = c.table ++ p ∷ [] }) bad
              (grind arith) (grind arith))
    ]
