-- ===== src/Traces/BatchMap.antt =====
-- `get_batch_map` of dpdk_code/client_code/include/new_order.h: to which batch each object belongs.
use net_lock.Common.{
  ℕ, zero, suc, ◌+◌, ◌<◌, ◌≤◌, ◌≡◌, refl, List, [], ◌∷◌, Option, none, some, ◌==◌, ltb,
  if◌then◌else◌, write, arith, length, All, lt→ltb,
}
use net_lock.Client.{max_lock_num}

pub record Pair : Type 0 where
  pub object : ℕ
  pub batch : ℕ

-- What the shell and the file give: the number of lines that `wc` counts, if the command runs and
-- prints one, and the lines that `fscanf` reads.
pub record BatchFile : Type 0 where
  pub line_c : Option ℕ
  pub lines : List Pair

-- The loop over the lines, by the rounds left; the map has `max_lock_num + 1` places, and `none` is a
-- write behind it. At the end of the file the map stays as it is.
unfoldable pub batch_loop : ℕ → List Pair → (ℕ → ℕ) → Option (ℕ → ℕ)
unfolding write
batch_loop zero lines map = some map
batch_loop (suc k) [] map = some map
batch_loop (suc k) (p ∷ lines) map =
    if ltb p.object (max_lock_num + 1)
    then batch_loop k lines (write map p.object p.batch)
    else none

unfoldable pub get_batch_map : BatchFile → (ℕ → ℕ) → Option (ℕ → ℕ)
unfolding batch_loop
get_batch_map f map = elim f.line_c [ none ↦ some map | some k ↦ batch_loop k f.lines map ]

-- What the last line for an object says, or what the map held.
abbrev pub batch_of : List Pair → (before object : ℕ) → ℕ
batch_of [] before object = before
batch_of (p ∷ lines) before object =
    batch_of lines (if object == p.object then p.batch else before) object

-- A file of as many lines as are counted, for objects within the map, is read whole: each object then
-- belongs to the batch that the last line for it says.
pub batch_loop-batch_of :
    (k : ℕ) (lines : List Pair) (map : ℕ → ℕ)
    → length lines ≤ k
    → All (λ (p : Pair). p.object < max_lock_num + 1) lines
    → (map' : ℕ → ℕ) × ((batch_loop k lines map ≡ some map')
        × ((object : ℕ) → map' object ≡ batch_of lines (map object) object))
unfolding batch_loop write
batch_loop-batch_of zero [] map le h = (map, (refl, λ object. refl))
batch_loop-batch_of zero (p ∷ lines) map le h = absurd (omega arith)
batch_loop-batch_of (suc k) [] map le h = (map, (refl, λ object. refl))
batch_loop-batch_of (suc k) (p ∷ lines) map le h =
    let (map', (ran, holds)) =
      batch_loop-batch_of k lines (write map p.object p.batch) (omega (arith, le)) h.1 in
    (map', (rw (lt→ltb _ _ h.0) ran, holds))
