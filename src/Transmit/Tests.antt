-- ===== src/Transmit/Tests.antt =====
-- The table of packets at concrete rows of packets.
use net_lock.Common.{ℕ, zero, suc, ◌≡◌, inl, refl, List, [], ◌∷◌, none, arith}
use net_lock.Wire.{Env, Packet, generate_write_request_pkt, acquire_lock, shared_lock}
use net_lock.Transmit.{Core, Card, acquire_enqueue_pkt, each}
use net_lock.Transmit.Burst.{acquire_enqueue_pkt_overflow}

abbrev env : Env
env = record { own_ip = 7; default_ip = 9; now = 1000 }

-- The packets of so many transactions.
abbrev row : ℕ → List Packet
row zero = []
row (suc n) = generate_write_request_pkt env acquire_lock shared_lock 5 n 0 0 0 3 ∷ row n

abbrev idle : Core
idle = record { table = []; tx = 0; dropped = 0; sent = []; freed = [] }

-- A card that takes one packet at a time.
abbrev slow_card : Card
slow_card [] = 0
slow_card (p ∷ ps) = 1

acquire_enqueue_pkt_overflow_example :
    each (λ p. acquire_enqueue_pkt slow_card p 0) (row 33) idle ≡ none
acquire_enqueue_pkt_overflow_example =
    acquire_enqueue_pkt_overflow slow_card 0 (row 33) idle (inl refl) (omega arith) (omega arith)
