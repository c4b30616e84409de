-- ===== src/Common/Maps.antt =====
-- Arrays and memory as functions on indices.
use Prim.Native.Nat.{ℕ}
use mathlib.Core.Path.{◌≡◌}
use mathlib.Core.Logic.{◌≢◌}
use native.Mathlib.Omega.{arith}
use net_lock.Common.Tests.{◌==◌, if◌then◌else◌}

module _ {ℓ} {B : Type ℓ} where
  unfoldable pub write : (ℕ → B) → ℕ → B → ℕ → B
  write f k v j = if j == k then v else f j

  pub write_self : (f : ℕ → B) (k : ℕ) (v : B) → write f k v k ≡ v
  unfolding write
  write_self f k v = ground arith

  pub write-ne : (f : ℕ → B) (k j : ℕ) (v : B) → j ≢ k → write f k v j ≡ f j
  unfolding write
  write-ne f k j v ne = ground arith
