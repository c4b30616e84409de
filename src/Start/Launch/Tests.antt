-- ===== src/Start/Launch/Tests.antt =====
-- Two requests for lock 5 at core 0 of a lock server that has started.
use net_lock.Common.{◌≡◌, ◌⊎◌, ◌++◌, All, refl, List, length, arith, write}
use net_lock.Wire.{shared_lock, exclusive_lock}
use net_lock.Meter.{Print, plan_of}
use net_lock.Polling.{turned, drain_tsc_of, all_of}
use net_lock.Polling.Laws.{Puts}
use net_lock.Server.{acquire_primary, request_of}
use net_lock.Server.Wire.{Who}
use net_lock.Server.History.{History}
use net_lock.Server.Tests.{asked_by, asking}
use net_lock.Server.Loop.{ServerCore, fixed_of}
use net_lock.Server.Loop.Tests.{requests, all_card, takes}
use net_lock.Server.Loop.Rounds.{arrivals}
use net_lock.Server.Loop.Exclusion.{Steps, nothing, then_on, arrivals_of, outs_of}
use net_lock.Start.Running.{fresh}
use net_lock.Start.Tests.{bare, defaults, program, started}
use net_lock.Start.Launch.{no_packets, np_client_loop, np_client_loop-held}

once : History
unfolding asked_by acquire_primary request_of
once = asked_by exclusive_lock 1 (fresh program.server)

twice : History
unfolding asked_by
twice = asked_by exclusive_lock 2 once

steps : Steps 5 (fresh program.server) twice
unfolding once twice write started
steps =
    then_on
      (asking exclusive_lock 1 (fresh program.server) (omega arith) (omega arith) (omega arith))
      (then_on (asking exclusive_lock 2 once (omega arith) (omega arith) (omega arith))
        (nothing twice))

np_client_loop-held_example :
    (x' : ServerCore) × (lines : List Print) × (np_client_loop program 0 1000000 50 all_card
        requests
      ≡ turned x' lines)
    × (x'.server ≡ twice.server)
    × Puts no_packets (outs_of steps) x'.tx
    × (All (λ (w : Who). w.mode ≡ shared_lock) twice.held ⊎ (length twice.held ≡ 1))
    × (later : List Who) × (twice.asked ≡ twice.served ++ later)
unfolding arrivals all_of arrivals_of steps asking once twice write started fixed_of plan_of
    drain_tsc_of
np_client_loop-held_example =
    np_client_loop-held bare defaults started.0 0 1000000 50 5 all_card requests steps started.1
      (omega arith) (omega arith) (omega arith) takes
      (
        record { fit = omega arith; before_exit = omega arith },
        (record { fit = omega arith; before_exit = omega arith }, tt),
      )
      refl
