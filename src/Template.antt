-- ===== src/Template.antt =====
-- `init_header_template` of dpdk_code/lock_server_code/include/util.h: the headers that every packet
-- starts with, and the checksum of the IP header.
pub mod Checksum
mod Tests
use net_lock.Common.{
  ℕ, ◌+◌, ◌-◌, ◌*◌, ◌/◌, ◌%◌, ◌^◌, List, [], ◌∷◌, Option, none, some, ltb, ◌==◌, if◌then◌else◌,
}
use net_lock.Wire.{htons}

-- An IPv4 address as `inet_pton` leaves it: its two halves as the host reads them.
pub record Address : Type 0 where
  pub first : ℕ
  pub second : ℕ

-- The IP header as ten words of 16 bits, the sixth, the checksum, apart; and the fields of UDP.
pub record Headers : Type 0 where
  pub words : List ℕ
  pub checksum : ℕ
  pub src_port : ℕ
  pub dst_port : ℕ
  pub dgram_len : ℕ

-- The sizes of the Ethernet, IP, UDP and NetLock headers.
abbrev pub pkt_len : ℕ
pkt_len = 14 + 20 + 8 + 20

abbrev pub service_port : ℕ
service_port = 8900

-- 0x45 and a service of 0; the length; no packet number and no fragments; 64 hops and UDP; then the
-- addresses.
unfoldable pub ip_words : Address → Address → List ℕ
unfolding htons
ip_words src dst =
    69
    ∷ htons (pkt_len - 14)
    ∷ 0
    ∷ 0
    ∷ (64 + 17 * 256)
    ∷ src.first
    ∷ src.second
    ∷ dst.first
    ∷ dst.second
    ∷ []

abbrev pub sum : List ℕ → ℕ
sum [] = 0
sum (w ∷ ws) = w + sum ws

-- The high half added to the low half.
abbrev pub folded : ℕ → ℕ
folded s = s / 2 ^ 16 % 2 ^ 16 + s % 2 ^ 16

abbrev pub reduced : ℕ → ℕ
reduced s = if ltb 65535 s then s - 65535 else s

-- The complement in 16 bits, 0xffff in place of 0.
abbrev pub completed : ℕ → ℕ
completed s = let c = 65535 - s % 2 ^ 16 in if c == 0 then 65535 else c

unfoldable pub ip_cksum : List ℕ → ℕ
ip_cksum ws = completed (reduced (folded (sum ws % 2 ^ 32)))

-- The program ends if `inet_pton` refuses an address.
unfoldable pub init_header_template : Option Address → Option Address → Option Headers
unfolding ip_words ip_cksum
init_header_template none dst = none
init_header_template (some src) none = none
init_header_template (some src) (some dst) = some (record {
  words = ip_words src dst;
  checksum = ip_cksum (ip_words src dst);
  src_port = htons service_port;
  dst_port = htons service_port;
  dgram_len = htons (pkt_len - 14 - 20);
})
