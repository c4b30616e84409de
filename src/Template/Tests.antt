-- ===== src/Template/Tests.antt =====
-- The addresses 10.1.0.17 and 10.1.0.15, as a little-endian host reads their halves.
use net_lock.Common.{◌+◌, ◌%◌, ◌^◌, ◌<◌, ◌≡◌, some, arith}
use net_lock.Template.{Address, Headers, sum, init_header_template}
use net_lock.Template.Checksum.{init_header_template-sum}

abbrev source : Address
source = record { first = 266; second = 4352 }

abbrev destination : Address
destination = record { first = 266; second = 3840 }

init_header_template-sum_example :
    (h : Headers) × (init_header_template (some source) (some destination) ≡ some h)
    × ((sum h.words + h.checksum) % 65535 ≡ 0)
    × (0 < h.checksum)
    × (h.checksum < 2 ^ 16)
init_header_template-sum_example =
    init_header_template-sum source destination
      (record { first = omega arith; second = omega arith })
      (record { first = omega arith; second = omega arith })
