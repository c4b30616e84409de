-- ===== src/Client/Loop/Rounds.antt =====
-- A round of a receiving core against the drain and the packets that it finds, one after the other.
use net_lock.Common.{
  ◌<◌, ◌≤◌, ◌≡◌, inl, inr, refl, subst, List, [], ◌++◌, some, All, length, Bool-cases, ◌==◌,
}
use net_lock.Wire.{Packet}
use net_lock.Transmit.{Card, nc_max_burst_size}
use net_lock.Transmit.Table.{TakesOffered}
use net_lock.Meter.{Outcome, Plan, Print, Meter, goes_on, completed, divides_by_zero}
use net_lock.Meter.Rounds.{measure-goes_on}
use net_lock.Polling.{turned, handle_all, all_of, drain_table}
use net_lock.Polling.Laws.{Puts, Puts-append, poll-Puts, each-Puts}
use net_lock.Client.{Client}
use net_lock.Client.Receive.{drain_round}
use net_lock.Client.Loop.{
  Arrival, Turn, Fixed, ClientCore, reading, measured, sampling, handle, turn,
}

-- The card gives no more than it is asked for, and the test is not over.
pub record IsRegular (plan : Plan) (t : Turn) : Type 0 where
  pub fit : All (λ (b : List Arrival). length b ≤ nc_max_burst_size) t.bursts
  pub before_exit : t.cur_tsc ≤ plan.exit_tsc

measured-goes_on :
    (fixed : Fixed) (t : Turn) (x : ClientCore)
    → 0 < fixed.plan.average_interval
    → IsRegular fixed.plan t
    → (m : Meter) × (lines : List Print) × (measured fixed t x ≡ goes_on m lines)
unfolding measured
measured-goes_on fixed t x divides h = elim (Bool-cases (fixed.lcore_id == 0)) [
  | inr other ↦ (x.meter, [], rw other refl)
  | inl first ↦ rw first (measure-goes_on fixed.plan (reading t x) divides h.before_exit x.meter)
]

turn-Puts :
    (card : Card) (fixed : Fixed) (t : Turn) (x : ClientCore) (m : Meter) (lines : List Print)
    (c1 c2 : Client) (out1 out2 : List Packet)
    → TakesOffered card
    → length x.tx.table < nc_max_burst_size
    → IsRegular fixed.plan t
    → measured fixed t x ≡ goes_on m lines
    → drain_round t.env fixed.config t.cur_tsc (sampling fixed t m x.client) ≡ some (c1, out1)
    → handle_all (handle fixed.config t.cur_tsc) (all_of t.bursts) c1 ≡ some (c2, out2)
    → (x' : ClientCore) × (turn card fixed t x ≡ turned x' lines)
      × (x'.client ≡ c2)
      × (x'.meter ≡ m)
      × Puts x.tx (out1 ++ out2) x'.tx
      × (x.next_drain_tsc < t.cur_tsc → (earlier : List Packet) × (out2 ≡ earlier ++ x'.tx.table))
unfolding turn
turn-Puts card fixed t x m lines c1 c2 out1 out2 takes room h going drains handled =
    let (tx1, (put, p)) = each-Puts card out1 x.tx takes room in
    let (tx2, ran, q, latest) =
      poll-Puts card (handle fixed.config t.cur_tsc) fixed.drain_tsc t.cur_tsc x.next_drain_tsc
        t.bursts c1 c2 tx1 out2 takes p.room h.fit handled in
    (
      record {
        client = c2;
        tx = tx2;
        next_drain_tsc = (drain_table card fixed.drain_tsc t.cur_tsc x.next_drain_tsc tx1).0;
        meter = m;
      },
      rw (going, drains, put, ran) refl,
      refl,
      refl,
      Puts-append p q,
      latest,
    )

-- The meter after the measurement, while the program goes on.
abbrev pub meter_after : Outcome → Meter → Meter
meter_after (goes_on m lines) old = m
meter_after (completed lines) old = old
meter_after divides_by_zero old = old

-- A round whose time stamp is behind `next_drain_tsc`, where the card takes no more than it is offered
-- and gives no more than 32 packets in a burst, the table has room, the interval is not 0, the test is
-- not over, and the drain of the think queue and the packets of the bursts, handled one after the
-- other, leave no array: the round ends with the client that they leave; every packet given before
-- and every release and answer is sent, freed or in the table, each once; and the table holds only
-- answers to the packets of this round, the last ones.
pub turn-drain_round :
    (card : Card) (fixed : Fixed) (t : Turn) (x : ClientCore) (c1 c2 : Client)
    (out1 out2 : List Packet)
    → TakesOffered card
    → length x.tx.table < nc_max_burst_size
    → 0 < fixed.plan.average_interval
    → IsRegular fixed.plan t
    → drain_round t.env fixed.config t.cur_tsc
        (sampling fixed t (meter_after (measured fixed t x) x.meter) x.client)
      ≡ some (c1, out1)
    → handle_all (handle fixed.config t.cur_tsc) (all_of t.bursts) c1 ≡ some (c2, out2)
    → x.next_drain_tsc < t.cur_tsc
    → (x' : ClientCore) × (lines : List Print) × (turn card fixed t x ≡ turned x' lines)
      × (x'.client ≡ c2)
      × Puts x.tx (out1 ++ out2) x'.tx
      × (earlier : List Packet) × (out2 ≡ earlier ++ x'.tx.table)
turn-drain_round card fixed t x c1 c2 out1 out2 takes room divides h drains handled due =
    let (m, lines, going) = measured-goes_on fixed t x divides h in
    let drains' =
      subst
        (λ o.
          drain_round t.env fixed.config t.cur_tsc
            (sampling fixed t (meter_after o x.meter) x.client)
          ≡ some (c1, out1))
        going drains in
    let (x', ran, same, _, p, latest) =
      turn-Puts card fixed t x m lines c1 c2 out1 out2 takes room h going drains' handled in
    let (earlier, e) = latest due in (x', lines, ran, same, p, earlier, e)
