-- ===== src/Latency.antt =====
-- What a client measures: `timediff_in_us` of dpdk_code/client_code/include/util.h, `compute_latency`
-- of dpdk_code/client_code/client.c.
pub mod Histogram
pub mod Collect
mod Tests
use net_lock.Common.{
  ℕ, zero, suc, ◌+◌, ◌-◌, ◌*◌, ◌/◌, ◌%◌, ◌^◌, List, [], ◌∷◌, ltb, if◌then◌else◌, write,
}

abbrev pub bin_range : ℕ
bin_range = 10

abbrev pub bin_max : ℕ
bin_max = 1000

-- `latency_statistics`, its `bin` as a function.
pub record LatencyStat : Type 0 where
  pub max : ℕ
  pub num : ℕ
  pub total : ℕ
  pub overflow : ℕ
  pub bin : ℕ → ℕ

-- The differences of two time stamps are taken modulo 2^64; `tsc_hz` is what `rte_get_tsc_hz` gives.
unfoldable pub timediff_in_us : (tsc_hz new_t old_t : ℕ) → ℕ
timediff_in_us tsc_hz new_t old_t = (new_t + 2 ^ 64 - old_t) % 2 ^ 64 * 1000000 % 2 ^ 64 / tsc_hz

unfoldable pub compute_latency : ℕ → LatencyStat → LatencyStat
unfolding write
compute_latency latency s = record {
  max = if ltb s.max latency then latency else s.max;
  num = (s.num + 1) % 2 ^ 64;
  total = (s.total + latency) % 2 ^ 64;
  overflow = if ltb latency bin_max then s.overflow else (s.overflow + 1) % 2 ^ 64;
  bin =
      if ltb latency bin_max
      then write s.bin (latency / bin_range) ((s.bin (latency / bin_range) + 1) % 2 ^ 64)
      else s.bin;
}
