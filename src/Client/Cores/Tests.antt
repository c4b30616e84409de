-- ===== src/Client/Cores/Tests.antt =====
-- Three clients on two sending cores, and on four.
use net_lock.Common.{ℕ, ◌≡◌, refl, List, [], ◌∷◌, ◌++◌, Option, some, true, arith}
use net_lock.Setup.{range_from}
use net_lock.Client.Tests.{env, config, core, late, trace, sender, held}
use net_lock.Client.Cores.{
  client_index_s, client_index_e, Sending, Pace, new_millisecond, send_round,
}
use net_lock.Client.Cores.Shares.{share, shares, round_over, send_round-shares}

-- The second core has clients 1 and 2.
second_core : (client_index_s 3 2 1 ≡ 1) × (client_index_e 3 2 1 ≡ 2)
unfolding client_index_s client_index_e
second_core = (refl, refl)

abbrev pace : Pace
pace = record {
  ms_tsc = 100;
  wpkts_send_limit_ms = 10;
  probing = true;
  client_first = client_index_s 3 2 1;
  client_last = client_index_e 3 2 1;
}

abbrev sending : Sending
sending = record { sender = sender; client = core held; next_ms_tsc = 9500; probe_counter = 7 }

send_round-shares_example :
    (send_round env (config 116 20) trace (λ _. late) pace 9000 sending
      ≡ round_over env
          (config 116 20)
          trace
          (λ _. late)
          pace
          (share 3 2 1)
          (new_millisecond pace 9000 sending))
    × (shares 3 2 2 ≡ range_from 3 0)
send_round-shares_example =
    send_round-shares 3 2 (omega arith) (omega arith) (omega arith) 1 env (config 116 20) trace
      (λ _. late) pace 9000 sending (omega arith) refl refl

-- A visit that notes the client.
abbrev noted : ℕ → List ℕ → Option (List ℕ)
noted cid seen = some (seen ++ cid ∷ [])
