-- ===== src/Server/Loop/Rounds.antt =====
-- The rounds of a core against the packets that they find, handled one after the other.
use net_lock.Common.{
  ◌+◌, ◌%◌, ◌^◌, ◌<◌, ◌≤◌, ◌≡◌, ◌∙◌, inl, inr, refl, sym, subst, List, [], ◌∷◌, ◌++◌, some, All,
  arith, length, Bool-cases, ◌==◌,
}
use net_lock.Wire.{Packet}
use net_lock.Transmit.{Card, nc_max_burst_size}
use net_lock.Transmit.Table.{TakesOffered}
use net_lock.Meter.{Plan, Print, Meter, goes_on}
use net_lock.Meter.Rounds.{measure-goes_on}
use net_lock.Polling.{turned, rounds, handle_all, all_of, drain_table}
use net_lock.Polling.Laws.{
  Puts, drain_table-due, Puts-nil, Puts-append, poll-Puts, handle_all-append,
}
use net_lock.Server.{Server}
use net_lock.Server.Loop.{
  Arrival, Turn, Fixed, ServerCore, reading, measured, handle, turn, np_client_rx_loop,
}

-- The card gives no more than it is asked for, and the test is not over.
pub record IsRegular (plan : Plan) (t : Turn) : Type 0 where
  pub fit : All (λ (b : List Arrival). length b ≤ nc_max_burst_size) t.bursts
  pub before_exit : t.cur_tsc ≤ plan.exit_tsc

measured-goes_on :
    (fixed : Fixed) (t : Turn) (x : ServerCore)
    → 0 < fixed.plan.average_interval
    → IsRegular fixed.plan t
    → (m : Meter) × (out : List Print) × (measured fixed t x ≡ goes_on m out)
unfolding measured
measured-goes_on fixed t x divides h = elim (Bool-cases (fixed.lcore_id == 0)) [
  | inr other ↦ (x.meter, [], rw other refl)
  | inl first ↦ rw first (measure-goes_on fixed.plan (reading t x) divides h.before_exit x.meter)
]

-- A round of a core does what the packets of its bursts do one after the other.
abbrev Turns : Card → Fixed → Turn → ServerCore → Server → List Packet → Type 0
Turns card fixed t x s' out =
    (x' : ServerCore) × (lines : List Print) × (turn card fixed t x ≡ turned x' lines)
    × (x'.server ≡ s')
    × (x'.next_drain_tsc ≡ (drain_table card fixed.drain_tsc t.cur_tsc x.next_drain_tsc x.tx).0)
    × Puts x.tx out x'.tx
    × (x.next_drain_tsc < t.cur_tsc → (earlier : List Packet) × (out ≡ earlier ++ x'.tx.table))

turn-Turns :
    (card : Card) (fixed : Fixed) (t : Turn) (x : ServerCore) (s' : Server) (out : List Packet)
    → TakesOffered card
    → length x.tx.table < nc_max_burst_size
    → 0 < fixed.plan.average_interval
    → IsRegular fixed.plan t
    → handle_all handle (all_of t.bursts) x.server ≡ some (s', out)
    → Turns card fixed t x s' out
unfolding turn
turn-Turns card fixed t x s' out takes room divides h handled =
    let (m, lines, going) = measured-goes_on fixed t x divides h in
    let (c', ran, p, latest) =
      poll-Puts card handle fixed.drain_tsc t.cur_tsc x.next_drain_tsc t.bursts x.server s' x.tx out
        takes room h.fit handled in
    (
      record {
        server = s';
        tx = c';
        next_drain_tsc = (drain_table card fixed.drain_tsc t.cur_tsc x.next_drain_tsc x.tx).0;
        meter = m;
      },
      lines,
      rw (going, ran) refl,
      refl,
      refl,
      p,
      latest,
    )

-- A round whose time stamp is behind `next_drain_tsc`, where the card takes no more than it is offered
-- and gives no more than 32 packets in a burst, the table has room, the interval is not 0, the test is
-- not over, and the packets of the bursts, handled one after the other, leave no array: the round ends
-- with the lock server that they leave; every packet given before and every answer is sent, freed or
-- in the table, each once; the table holds only answers of this round, the last ones; and
-- `next_drain_tsc` moves on by `drain_tsc`.
pub turn-due :
    (card : Card) (fixed : Fixed) (t : Turn) (x : ServerCore) (s' : Server) (out : List Packet)
    → TakesOffered card
    → length x.tx.table < nc_max_burst_size
    → 0 < fixed.plan.average_interval
    → IsRegular fixed.plan t
    → handle_all handle (all_of t.bursts) x.server ≡ some (s', out)
    → x.next_drain_tsc < t.cur_tsc
    → (x' : ServerCore) × (lines : List Print) × (turn card fixed t x ≡ turned x' lines)
      × (x'.server ≡ s')
      × Puts x.tx out x'.tx
      × (earlier : List Packet) × (out ≡ earlier ++ x'.tx.table)
      × (x'.next_drain_tsc ≡ (x.next_drain_tsc + fixed.drain_tsc) % 2 ^ 64)
turn-due card fixed t x s' out takes room divides h handled due =
    let (x', lines, ran, same, next, p, latest) =
      turn-Turns card fixed t x s' out takes room divides h handled in
    let (earlier, e) = latest due in
    (
      x',
      lines,
      ran,
      same,
      p,
      earlier,
      e,
      next ∙ (drain_table-due card fixed.drain_tsc t.cur_tsc x.next_drain_tsc x.tx due).0,
    )

-- The packets of all rounds.
unfoldable pub arrivals : List Turn → List Arrival
arrivals [] = []
arrivals (t ∷ ts) = all_of t.bursts ++ arrivals ts

-- Where the card takes no more than it is offered and gives no more than 32 packets in a burst, the
-- table of the core has room, the interval is not 0, and the test is not over: if the packets of all
-- bursts of all rounds, handled one after the other, leave no array, then the loop of the core goes
-- on through all rounds and ends with the lock server that they leave; the table has room, every
-- packet given before and every answer is sent, freed or in the table, each once, and those in the
-- table came last.
pub np_client_rx_loop-Puts :
    (card : Card) (fixed : Fixed) (ts : List Turn) (x : ServerCore) (s' : Server)
    (out : List Packet)
    → TakesOffered card
    → length x.tx.table < nc_max_burst_size
    → 0 < fixed.plan.average_interval
    → All (IsRegular fixed.plan) ts
    → handle_all handle (arrivals ts) x.server ≡ some (s', out)
    → (x' : ServerCore) × (lines : List Print) × (np_client_rx_loop card fixed ts x
        ≡ turned x' lines)
      × (x'.server ≡ s')
      × Puts x.tx out x'.tx
unfolding np_client_rx_loop rounds arrivals handle_all
np_client_rx_loop-Puts card fixed [] x s' out takes room divides h handled = (
  x,
  [],
  refl,
  ground (arith, handled),
  subst (λ o. Puts x.tx o x.tx) (ground (arith, handled)) (Puts-nil x.tx room),
)
np_client_rx_loop-Puts card fixed (t ∷ ts) x s' out takes room divides h handled =
    let (s1, out1, out2, first, second, e) =
      handle_all-append card handle (all_of t.bursts) (arrivals ts) x.server s' out handled in
    let (x1, lines1, ran, same, _, p, _) =
      turn-Turns card fixed t x s1 out1 takes room divides h.0 first in
    let (x2, lines2, ran', same', q) =
      np_client_rx_loop-Puts card fixed ts x1 s' out2 takes p.room divides h.1 (rw same second) in
    (
      x2,
      lines1 ++ lines2,
      rw (rounds, ran, ran') refl,
      same',
      subst (λ o. Puts x.tx o x2.tx) (sym e) (Puts-append p q),
    )
