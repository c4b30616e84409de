-- ===== src/Start/Launch.antt =====
-- `np_client_loop` of dpdk_code/lock_server_code/server.c on one of the cores that `main` launches, and
-- mutual exclusion from `main` on.
mod Tests
use net_lock.Common.{
  ℕ, ◌+◌, ◌%◌, ◌^◌, ◌<◌, ◌≤◌, ◌≡◌, ◌≢◌, ◌⊎◌, refl, List, [], ◌++◌, All, length, arith,
}
use net_lock.Wire.{shared_lock}
use net_lock.Args.{Settings}
use net_lock.Latency.{LatencyStat}
use net_lock.Transmit.{Card, Core, nc_max_burst_size}
use net_lock.Transmit.Table.{TakesOffered}
use net_lock.Meter.{Print, meter_of}
use net_lock.Polling.{Turned, turned, drain_tsc_of}
use net_lock.Polling.Laws.{Puts}
use net_lock.Client.{max_client_num}
use net_lock.Server.{max_lock_num}
use net_lock.Server.Wire.{Who}
use net_lock.Server.History.{History}
use net_lock.Server.Loop.{Turn, Fixed, ServerCore, fixed_of, np_client_rx_loop}
use net_lock.Server.Loop.Rounds.{IsRegular, arrivals}
use net_lock.Server.Loop.Exclusion.{Steps, arrivals_of, outs_of, np_client_rx_loop-held}
use net_lock.Start.{Machine, Program, runs, main}
use net_lock.Start.Running.{fresh, main-Reach}

abbrev no_latency : LatencyStat
no_latency = record { max = 0; num = 0; total = 0; overflow = 0; bin = λ _. 0 }

abbrev pub no_packets : Core
no_packets = record { table = []; tx = 0; dropped = 0; sent = []; freed = [] }

-- What the loop begins with at its first time stamp.
unfoldable pub core_of : Program → (tsc_hz cur_tsc : ℕ) → ServerCore
unfolding drain_tsc_of meter_of
core_of x tsc_hz cur_tsc = record {
  server = x.server;
  tx = no_packets;
  next_drain_tsc = (cur_tsc + drain_tsc_of tsc_hz) % 2 ^ 64;
  meter = meter_of x.settings.average_interval tsc_hz cur_tsc (λ _. no_latency);
}

-- What does not change in the loop.
abbrev pub fixed_by : Program → (lcore_id tsc_hz cur_tsc : ℕ) → Fixed
fixed_by x lcore_id tsc_hz cur_tsc =
    fixed_of lcore_id (length x.cores) x.settings.n_rcv_cores x.settings.average_interval tsc_hz
      cur_tsc

-- The loop of a core, on the rounds that it finds.
unfoldable pub np_client_loop :
    Program → (lcore_id tsc_hz cur_tsc : ℕ) → Card → List Turn → Turned Print ServerCore
unfolding core_of fixed_of np_client_rx_loop
np_client_loop x lcore_id tsc_hz cur_tsc card ts =
    np_client_rx_loop card (fixed_by x lcore_id tsc_hz cur_tsc) ts (core_of x tsc_hz cur_tsc)

-- Mutual exclusion for a lock server from `main` on, where one core handles all packets: it is told
-- of at most 8 clients, the interval of the measurement is not 0, the card takes no more than it is offered
-- and gives no more than 32 packets in a burst, no round is behind the end of the test, and the
-- packets of the rounds are those of steps of the history of a lock within the arrays, from the
-- empty history on. Then the loop goes on through all rounds; every answer is sent, freed or in the
-- table, each once; all who hold the lock by the grants sent hold it shared, or there is only one
-- of them; and the grants sent so far are, in order, a first part of the requests that arrived.
pub np_client_loop-held :
    (m : Machine) (defaults : Settings) (x : Program) (lcore_id tsc_hz cur_tsc l : ℕ) (card : Card)
    (ts : List Turn) {h : History} (sts : Steps l (fresh x.server) h)
    → main m defaults ≡ runs x
    → x.settings.client_num ≤ max_client_num
    → l < max_lock_num
    → 0 < x.settings.average_interval
    → TakesOffered card
    → All (IsRegular (fixed_by x lcore_id tsc_hz cur_tsc).plan) ts
    → arrivals ts ≡ arrivals_of sts
    → (x' : ServerCore) × (lines : List Print) × (np_client_loop x lcore_id tsc_hz cur_tsc card ts
        ≡ turned x' lines)
      × (x'.server ≡ h.server)
      × Puts no_packets (outs_of sts) x'.tx
      × (All (λ (w : Who). w.mode ≡ shared_lock) h.held ⊎ (length h.held ≡ 1))
      × (later : List Who) × (h.asked ≡ h.served ++ later)
unfolding np_client_loop core_of fixed_of
np_client_loop-held m defaults x lcore_id tsc_hz cur_tsc l card ts sts started few fits divides
      takes regular found =
    np_client_rx_loop-held card (fixed_by x lcore_id tsc_hz cur_tsc) ts (core_of x tsc_hz cur_tsc) l
      sts takes (omega arith) divides regular (main-Reach m defaults x l started few fits) refl
      found
