-- ===== src/Polling.antt =====
-- What the loops of `np_client_rx_loop` in dpdk_code/lock_server_code/server.c and
-- dpdk_code/client_code/client.c share: the timer that sends the table of packets, and the polling
-- of the receive queues. What is done with a packet is an argument.
pub mod Laws
pub mod Simulation
use net_lock.Common.{
  ℕ, ◌+◌, ◌-◌, ◌*◌, ◌/◌, ◌%◌, ◌^◌, List, [], ◌∷◌, ◌++◌, Option, none, some, ltb, leb, if◌then◌else◌,
  length,
}
use net_lock.Wire.{Packet}
use net_lock.Transmit.{Core, Card, nc_max_burst_size, send_pkt_burst, enqueue_pkt, each}

-- `drain_tsc`: ten microseconds.
unfoldable pub drain_tsc_of : (tsc_hz : ℕ) → ℕ
drain_tsc_of tsc_hz = (tsc_hz + 1000000 - 1) % 2 ^ 64 / 1000000 * 10 % 2 ^ 64

-- The table is sent when its time has come, full or not; with it, `next_drain_tsc`.
unfoldable pub drain_table : Card → (drain_tsc cur_tsc : ℕ) → (next_drain_tsc : ℕ) → Core → ℕ × Core
unfolding send_pkt_burst
drain_table card drain_tsc cur_tsc next_drain_tsc c =
    if ltb next_drain_tsc cur_tsc
    then ((next_drain_tsc + drain_tsc) % 2 ^ 64, send_pkt_burst card c)
    else (next_drain_tsc, c)

abbrev pub with_state : {S : Type 0} → S → Option Core → Option (S × Core)
with_state s none = none
with_state s (some c) = some (s, c)

-- The answers to a packet go into the table.
abbrev pub put_answers : {S : Type 0} → Card → Core → Option (S × List Packet) → Option (S × Core)
put_answers card c none = none
put_answers card c (some (s, out)) = with_state s (each (enqueue_pkt card) out c)

module _ {A S : Type 0} (card : Card) (handle : A → S → Option (S × List Packet)) where
  -- The packets of a burst, in their order.
  unfoldable pub on_burst : List A → S × Core → Option (S × Core)
  unfolding each enqueue_pkt
  on_burst [] x = some x
  on_burst (a ∷ rest) (s, c) = elim (put_answers card c (handle a s)) [
    | none ↦ none
    | some x ↦ on_burst rest x
  ]

  -- One burst of each receive queue; `none` too if it is longer than `mbuf_burst`.
  unfoldable pub on_queues : List (List A) → S × Core → Option (S × Core)
  unfolding on_burst
  on_queues [] x = some x
  on_queues (b ∷ bs) x = elim (if leb (length b) nc_max_burst_size then on_burst b x else none) [
    | none ↦ none
    | some x' ↦ on_queues bs x'
  ]

abbrev pub with_next : {S : Type 0} → ℕ → Option (S × Core) → Option (ℕ × S × Core)
with_next next none = none
with_next next (some (s, c)) = some (next, s, c)

-- What both loops end a round with: the timer, and the bursts of the receive queues.
unfoldable pub poll :
    {A S : Type 0}
    → Card
    → (A → S → Option (S × List Packet))
    → (drain_tsc cur_tsc : ℕ) → List (List A)
    → (next_drain_tsc : ℕ) → S
    → Core
    → Option (ℕ × S × Core)
unfolding drain_table on_queues
poll card handle drain_tsc cur_tsc bursts next_drain_tsc s c =
    let (next, c') = drain_table card drain_tsc cur_tsc next_drain_tsc c in
    with_next next (on_queues card handle bursts (s, c'))

abbrev pub then_answers :
    {S : Type 0} → List Packet → Option (S × List Packet) → Option (S × List Packet)
then_answers out none = none
then_answers out (some (s, out')) = some (s, out ++ out')

-- What the packets do one after the other, with no table: the last state and all answers.
unfoldable pub handle_all :
    {A S : Type 0} → (A → S → Option (S × List Packet)) → List A → S → Option (S × List Packet)
handle_all handle [] s = some (s, [])
handle_all handle (a ∷ rest) s = elim (handle a s) [
  | none ↦ none
  | some (s', out) ↦ then_answers out (handle_all handle rest s')
]

-- The packets of all bursts of a round.
unfoldable pub all_of : {A : Type 0} → List (List A) → List A
all_of [] = []
all_of (b ∷ bs) = b ++ all_of bs

-- A round goes on, the test is completed, a division by 0 stops the program, or it leaves its arrays.
pub data Turned (P X : Type 0) : Type 0 where
  turned : X → List P → Turned P X
  completed : List P → Turned P X
  divides_by_zero : Turned P X
  faults : Turned P X

abbrev pub printed_before : {P X : Type 0} → List P → Turned P X → Turned P X
printed_before out (turned x out') = turned x (out ++ out')
printed_before out (completed out') = completed (out ++ out')
printed_before out divides_by_zero = divides_by_zero
printed_before out faults = faults

abbrev pub then_rounds : {P X : Type 0} → Turned P X → (X → Turned P X) → Turned P X
then_rounds (turned x out) k = printed_before out (k x)
then_rounds (completed out) k = completed out
then_rounds divides_by_zero k = divides_by_zero
then_rounds faults k = faults

-- `while (1)`, on the rounds that the core finds.
unfoldable pub rounds : {P T X : Type 0} → (T → X → Turned P X) → List T → X → Turned P X
rounds turn [] x = turned x []
rounds turn (t ∷ ts) x = then_rounds (turn t x) (rounds turn ts)
