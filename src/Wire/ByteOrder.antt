-- ===== src/Wire/ByteOrder.antt =====
-- The byte order conversions undo one another.
use net_lock.Common.{ℕ, ◌^◌, ◌<◌, ◌≡◌, arith}
use net_lock.Wire.{htonl, ntohl}

pub htonl-lt : (x : ℕ) → htonl x < 2 ^ 32
unfolding htonl
htonl-lt x = omega arith

pub htonl-ntohl : (x : ℕ) → x < 2 ^ 32 → htonl (ntohl x) ≡ x
unfolding htonl ntohl
htonl-ntohl x h = omega arith

pub ntohl-htonl : (x : ℕ) → x < 2 ^ 32 → ntohl (htonl x) ≡ x
unfolding htonl ntohl
ntohl-htonl x h = omega arith
