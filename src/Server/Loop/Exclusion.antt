-- ===== src/Server/Loop/Exclusion.antt =====
-- Mutual exclusion for the loop of a core that serves a lock.
use net_lock.Common.{ℕ, ◌<◌, ◌≡◌, ◌⊎◌, List, [], ◌∷◌, ◌++◌, some, All, length, refl}
use net_lock.Wire.{Packet, shared_lock}
use net_lock.Transmit.{Card, nc_max_burst_size}
use net_lock.Transmit.Table.{TakesOffered}
use net_lock.Meter.{Print}
use net_lock.Polling.{turned, handle_all}
use net_lock.Polling.Laws.{Puts}
use net_lock.Server.Wire.{Who}
use net_lock.Server.History.{History, Step, acquires, releases, elsewhere, Reach, next}
use net_lock.Server.Exclusion.{held_compatible, served_in_order}
use net_lock.Server.Loop.{Arrival, Turn, Fixed, ServerCore, handle, np_client_rx_loop}
use net_lock.Server.Loop.Rounds.{IsRegular, arrivals, np_client_rx_loop-Puts}

-- The packet of a step, and the answers to it.
unfoldable pub arrival_of : {l : ℕ} {g h : History} → Step l g h → Arrival
arrival_of (acquires env round f s out at op memory room done) = record {
  env = env;
  round = round;
  frame = f;
}
arrival_of (releases env round f s out at op held done) = record {
  env = env;
  round = round;
  frame = f;
}
arrival_of (elsewhere env round f s out alive other done) = record {
  env = env;
  round = round;
  frame = f;
}

unfoldable pub out_of : {l : ℕ} {g h : History} → Step l g h → List Packet
out_of (acquires env round f s out at op memory room done) = out
out_of (releases env round f s out at op held done) = out
out_of (elsewhere env round f s out alive other done) = out

handle-arrival_of :
    {l : ℕ} {g h : History} (st : Step l g h)
    → handle (arrival_of st) g.server ≡ some (h.server, out_of st)
unfolding handle arrival_of out_of
handle-arrival_of (acquires env round f s out at op memory room done) = done
handle-arrival_of (releases env round f s out at op held done) = done
handle-arrival_of (elsewhere env round f s out alive other done) = done

-- Steps of a lock's history, the first one first.
pub data Steps (l : ℕ) : History → History → Type 0 where
  nothing : (h : History) → Steps l h h
  then_on : {g h k : History} → Step l g h → Steps l h k → Steps l g k

unfoldable pub arrivals_of : {l : ℕ} {g h : History} → Steps l g h → List Arrival
unfolding arrival_of
arrivals_of (nothing h) = []
arrivals_of (then_on st rest) = arrival_of st ∷ arrivals_of rest

unfoldable pub outs_of : {l : ℕ} {g h : History} → Steps l g h → List Packet
unfolding out_of
outs_of (nothing h) = []
outs_of (then_on st rest) = out_of st ++ outs_of rest

handle_all-arrivals_of :
    {l : ℕ} {g h : History} (sts : Steps l g h)
    → handle_all handle (arrivals_of sts) g.server ≡ some (h.server, outs_of sts)
unfolding handle_all arrivals_of outs_of
handle_all-arrivals_of (nothing h) = refl
handle_all-arrivals_of (then_on st rest) =
    rw (handle_all, handle-arrival_of st, handle_all-arrivals_of rest) refl

Reach-Steps : {l : ℕ} {g h : History} → Reach l g → Steps l g h → Reach l h
Reach-Steps r (nothing h) = r
Reach-Steps r (then_on st rest) = Reach-Steps (next r st) rest

-- The loop of a core that alone serves a lock, under the conditions of the history of the lock and of the
-- rounds: where the packets of its rounds are those of steps that go on from a history of the lock,
-- the loop goes on through all rounds and ends with the server of the steps' last history; every
-- packet given before and every answer is sent, freed or in the table, each once; and then all who
-- hold the lock by the grants sent hold it shared, or there is only one of them, and the grants
-- sent so far are, in order, a first part of the requests that arrived.
pub np_client_rx_loop-held :
    (card : Card) (fixed : Fixed) (ts : List Turn) (x : ServerCore) (l : ℕ) {g h : History}
    (sts : Steps l g h)
    → TakesOffered card
    → length x.tx.table < nc_max_burst_size
    → 0 < fixed.plan.average_interval
    → All (IsRegular fixed.plan) ts
    → Reach l g
    → x.server ≡ g.server
    → arrivals ts ≡ arrivals_of sts
    → (x' : ServerCore) × (lines : List Print) × (np_client_rx_loop card fixed ts x
        ≡ turned x' lines)
      × (x'.server ≡ h.server)
      × Puts x.tx (outs_of sts) x'.tx
      × (All (λ (w : Who). w.mode ≡ shared_lock) h.held ⊎ (length h.held ≡ 1))
      × (later : List Who) × (h.asked ≡ h.served ++ later)
np_client_rx_loop-held card fixed ts x l {h = h} sts takes room divides regular reach same found =
    let r = Reach-Steps reach sts in
    let handled : handle_all handle (arrivals ts) x.server ≡ some (h.server, outs_of sts) =
      rw (same, found) (handle_all-arrivals_of sts) in
    let (x', lines, ran, same', p) =
      np_client_rx_loop-Puts card fixed ts x h.server (outs_of sts) takes room divides regular
        handled in
    let (later, e) = served_in_order l r in
    (x', lines, ran, same', p, held_compatible l r, later, e)
