-- ===== src/Start/Clients/Tests.antt =====
-- Six clients on three sending cores, who load the two requests of one file.
use net_lock.Common.{◌≡◌, ◌≤◌, ◌-◌, ℕ, refl, List, [], ◌∷◌, some, Option, true, arith, length, map}
use net_lock.Args.{pos, receivers, machine, emulated, Argument, parse_client_option, parse_option}
use net_lock.Args.Accepted.{argument}
use net_lock.Client.{failure_normal}
use net_lock.Client.Visit.Sound.{AllSound}
use net_lock.Traces.{Row}
use net_lock.Traces.Requests.{IsLoaded, requests, key_of}
use net_lock.Traces.Files.{trace_file, setup_of, load_file}
use net_lock.Start.{batches, runs}
use net_lock.Start.Tests.{defaults, bare}
use net_lock.Start.Clients.{ClientMachine, ClientProgram, no_loads, main}
use net_lock.Start.Clients.Ready.{main-IsLoaded}

abbrev line : List Argument
line =
    argument receivers (pos 1) 49 (49 ∷ [])
    ∷ argument emulated (pos 6) 54 (54 ∷ [])
    ∷ argument machine (pos 3) 51 (51 ∷ [])
    ∷ []

abbrev row : (target lock_type : ℕ) → Row
row target lock_type = record {
  txn_id = 1;
  action_type = 0;
  target_lm_id = 0;
  target_obj_idx = target;
  lock_type = lock_type;
  random = 0;
}

abbrev client_machine : ClientMachine
client_machine = record {
  machine = record bare { eal = some line };
  trace_files = λ _. record {
    line_c = some 4;
    opened = some (record { has_head = true; rows = row 4 1 ∷ row 5 2 ∷ [] });
  };
  overrun = λ bytes globals. globals;
}

unfoldable started : (x : ClientProgram) × (main client_machine defaults ≡ runs x)
unfolding main parse_client_option parse_option
started = (_, refl)

abbrev program : ClientProgram
program = started.0

-- Each client expects two locks of transaction 1.
expects : ((program.client 0).txns 2 1).locks ≡ 2
unfolding started
expects = refl

main-IsLoaded_example :
    (length program.cores - program.settings.n_rcv_cores ≤ program.settings.client_num)
    × ((batch_map : Option (ℕ → ℕ)) × (batches client_machine.machine program.settings
          ≡ some batch_map)
        × (load_file client_machine.machine.has_memory
              (setup_of program.settings batch_map)
              (client_machine.trace_files (trace_file program.settings (length program.cores) 2))
              (no_loads 2)
            ≡ some (program.loads 2)))
    × IsLoaded (program.loads 2)
    × (((program.client 0).txns 2 1).locks ≡ requests 1 (map key_of (program.loads 2).entries))
    × ((program.client 0).failure_act 2 ≡ failure_normal)
    × AllSound (program.client 0)
unfolding started
main-IsLoaded_example =
    main-IsLoaded client_machine defaults started.0 2 1 0 started.1 (omega arith) (omega arith)
      (omega arith)
