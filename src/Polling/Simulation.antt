-- ===== src/Polling/Simulation.antt =====
-- Two programs whose handling of a packet agrees on what one reads of the other's state agree on
-- every round of polling.
use net_lock.Common.{
  ℕ, suc, ◌≡◌, ◌∙◌, inl, inr, refl, sym, ap, List, [], ◌∷◌, Option, none, some, Bool-cases,
  Option-cases, map, leb, length,
}
use net_lock.Wire.{Packet}
use net_lock.Transmit.{Core, Card, nc_max_burst_size, enqueue_pkt, each}
use net_lock.Polling.{
  drain_table, on_burst, on_queues, poll, Turned, turned, completed, divides_by_zero, faults,
  printed_before, then_rounds, rounds,
}

abbrev pub on_state : {S S' X : Type 0} → (S → S') → Option (S × X) → Option (S' × X)
on_state g none = none
on_state g (some (s, x)) = some (g s, x)

abbrev pub on_polled : {S S' : Type 0} → (S → S') → Option (ℕ × S × Core) → Option (ℕ × S' × Core)
on_polled g none = none
on_polled g (some (next, s, c)) = some (next, g s, c)

module _ {A A' S S' : Type 0} (card : Card) (handle : A → S → Option (S × List Packet))
    (handle' : A' → S' → Option (S' × List Packet)) (f : A → A') (g : S → S')
    (agrees : (a : A) (s : S) → on_state g (handle a s) ≡ handle' (f a) (g s)) where
  pub on_burst-agrees :
      (b : List A) (s : S) (c : Core)
      → on_state g (on_burst card handle b (s, c)) ≡ on_burst card handle' (map f b) (g s, c)
  unfolding on_burst
  on_burst-agrees [] s c = refl
  on_burst-agrees (a ∷ rest) s c = elim (Option-cases (handle a s)) [
    | inl fault ↦
        let fault' : handle' (f a) (g s) ≡ none = sym (agrees a s) ∙ ap (on_state g) fault in
        rw (on_burst, fault, fault') refl
    | inr ((s1, out), done) ↦
        let done' : handle' (f a) (g s) ≡ some (g s1, out) =
          sym (agrees a s) ∙ ap (on_state g) done in
        elim (Option-cases (each (enqueue_pkt card) out c)) [
          | inl full ↦ rw (on_burst, done, done', full) refl
          | inr (c1, put) ↦ rw (on_burst, done, done', put) (on_burst-agrees rest s1 c1)
        ]
  ]

  length-map : (b : List A) → length (map f b) ≡ length b
  length-map [] = refl
  length-map (a ∷ b) = ap suc (length-map b)

  pub on_queues-agrees :
      (bs : List (List A)) (s : S) (c : Core)
      → on_state g (on_queues card handle bs (s, c))
        ≡ on_queues card handle' (map (map f) bs) (g s, c)
  unfolding on_queues
  on_queues-agrees [] s c = refl
  on_queues-agrees (b ∷ bs) s c = elim (Bool-cases (leb (length b) nc_max_burst_size)) [
    | inr long ↦ rw (on_queues, length-map b, long) refl
    | inl fits ↦ elim (Option-cases (on_burst card handle b (s, c))) [
      | inl fault ↦
          let fault' = sym (on_burst-agrees b s c) ∙ ap (on_state g) fault in
          rw (on_queues, length-map b, fits, fault, fault') refl
      | inr ((s1, c1), ran) ↦
          let ran' = sym (on_burst-agrees b s c) ∙ ap (on_state g) ran in
          rw (on_queues, length-map b, fits, ran, ran') (on_queues-agrees bs s1 c1)
    ]
  ]

  pub poll-agrees :
      (drain_tsc cur_tsc next : ℕ) (bs : List (List A)) (s : S) (c : Core)
      → on_polled g (poll card handle drain_tsc cur_tsc bs next s c)
        ≡ poll card handle' drain_tsc cur_tsc (map (map f) bs) next (g s) c
  unfolding poll
  poll-agrees drain_tsc cur_tsc next bs s c =
      let c1 = (drain_table card drain_tsc cur_tsc next c).1 in
      elim (Option-cases (on_queues card handle bs (s, c1))) [
        | inl fault ↦
            let fault' = sym (on_queues-agrees bs s c1) ∙ ap (on_state g) fault in
            rw (poll, fault, fault') refl
        | inr ((s1, c2), ran) ↦
            let ran' = sym (on_queues-agrees bs s c1) ∙ ap (on_state g) ran in
            rw (poll, ran, ran') refl
      ]

-- What is left of a loop if nobody reads what it prints.
abbrev pub silent : {P X X' : Type 0} → (X → X') → Turned P X → Turned (Unit {0}) X'
silent g (turned x out) = turned (g x) []
silent g (completed out) = completed []
silent g divides_by_zero = divides_by_zero
silent g faults = faults

abbrev pub unread : {P X : Type 0} → Turned P X → Turned (Unit {0}) X
unread o = silent (λ x. x) o

silent-printed_before :
    {P X X' : Type 0} (g : X → X') (out : List P) (o : Turned P X)
    → silent g (printed_before out o) ≡ silent g o
silent-printed_before g out (turned x out') = refl
silent-printed_before g out (completed out') = refl
silent-printed_before g out divides_by_zero = refl
silent-printed_before g out faults = refl

module _ {P P' X X' : Type 0} (g : X → X') where
  silent-then_rounds :
      (o : Turned P X) (o' : Turned P' X') (k : X → Turned P X) (k' : X' → Turned P' X')
      → ((x : X) → silent g (k x) ≡ unread (k' (g x)))
      → silent g o ≡ unread o'
      → silent g (then_rounds o k) ≡ unread (then_rounds o' k')
  silent-then_rounds (turned x out) (turned x' out') k k' h e =
      let same : g x ≡ x' = cc in
      silent-printed_before g out (k x)
      ∙ (h x ∙ (ap (λ y. unread (k' y)) same ∙ sym (silent-printed_before (λ y. y) out' (k' x'))))
  silent-then_rounds (turned x out) (completed out') k k' h e = cc
  silent-then_rounds (turned x out) divides_by_zero k k' h e = cc
  silent-then_rounds (turned x out) faults k k' h e = cc
  silent-then_rounds (completed out) (turned x' out') k k' h e = cc
  silent-then_rounds (completed out) (completed out') k k' h e = refl
  silent-then_rounds (completed out) divides_by_zero k k' h e = cc
  silent-then_rounds (completed out) faults k k' h e = cc
  silent-then_rounds divides_by_zero (turned x' out') k k' h e = cc
  silent-then_rounds divides_by_zero (completed out') k k' h e = cc
  silent-then_rounds divides_by_zero divides_by_zero k k' h e = refl
  silent-then_rounds divides_by_zero faults k k' h e = cc
  silent-then_rounds faults (turned x' out') k k' h e = cc
  silent-then_rounds faults (completed out') k k' h e = cc
  silent-then_rounds faults divides_by_zero k k' h e = cc
  silent-then_rounds faults faults k k' h e = refl

  pub rounds-agrees :
      {T T' : Type 0} (turn : T → X → Turned P X) (turn' : T' → X' → Turned P' X') (f : T → T')
      → ((t : T) (x : X) → silent g (turn t x) ≡ unread (turn' (f t) (g x)))
      → (ts : List T) (x : X) → silent g (rounds turn ts x) ≡ unread (rounds turn' (map f ts) (g x))
  unfolding rounds
  rounds-agrees turn turn' f h [] x = refl
  rounds-agrees turn turn' f h (t ∷ ts) x =
      silent-then_rounds (turn t x) (turn' (f t) (g x)) (rounds turn ts) (rounds turn' (map f ts))
        (rounds-agrees turn turn' f h ts) (h t x)
