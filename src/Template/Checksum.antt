-- ===== src/Template/Checksum.antt =====
-- The checksum against the definition of RFC 1071.
use net_lock.Common.{ℕ, ◌+◌, ◌-◌, ◌*◌, ◌%◌, ◌^◌, ◌<◌, ◌≡◌, refl, some, arith}
use net_lock.Wire.{htons}
use net_lock.Template.{
  Address, Headers, ip_words, sum, folded, reduced, completed, ip_cksum, init_header_template,
  service_port, pkt_len,
}

pub record IsAddress (a : Address) : Type 0 where
  pub first : a.first < 2 ^ 16
  pub second : a.second < 2 ^ 16

completed-reduced :
    (s : ℕ)
    → s < 10 * 2 ^ 16
    → let c = completed (reduced (folded (s % 2 ^ 32))) in
      ((s + c) % 65535 ≡ 0) × (0 < c) × (c < 2 ^ 16)
completed-reduced s h = (ground (arith, h), ground (arith, h), ground (arith, h))

abbrev template : Address → Address → Headers
template src dst = record {
  words = ip_words src dst;
  checksum = ip_cksum (ip_words src dst);
  src_port = htons service_port;
  dst_port = htons service_port;
  dgram_len = htons (pkt_len - 14 - 20);
}

-- For the addresses that `inet_pton` gives: the template is made, its checksum is a word other than
-- 0, and the sum of the whole IP header is 0 in the ones' complement of 16 bits.
pub init_header_template-sum :
    (src dst : Address)
    → IsAddress src
    → IsAddress dst
    → (h : Headers) × (init_header_template (some src) (some dst) ≡ some h)
      × ((sum h.words + h.checksum) % 65535 ≡ 0)
      × (0 < h.checksum)
      × (h.checksum < 2 ^ 16)
unfolding init_header_template ip_cksum ip_words htons
init_header_template-sum src dst s d =
    let (zero_sum, not_zero, small) =
      completed-reduced (sum (ip_words src dst))
        (omega (arith, s.first, s.second, d.first, d.second)) in
    (template src dst, refl, zero_sum, not_zero, small)
