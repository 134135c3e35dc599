-- ===== src/Base/Range.antt =====
-- A test at every number below a bound, for facts about a byte or a table that evaluation settles.
use Prim.Native.Nat.{ℕ, zero, suc, ◌<◌}
use mathlib.Core.Path.{◌≡◌}
use mathlib.Core.Bool.{Bool, true, ◌&&◌}
use native.Mathlib.Omega.{arith}

unfoldable pub holds_below : ℕ → (ℕ → Bool) → Bool
holds_below zero test = true
holds_below (suc n) test = test n && holds_below n test

pub holds_at : (n : ℕ) (test : ℕ → Bool) (k : ℕ) → holds_below n test ≡ true → k < n → test k ≡ true
unfolding holds_below
holds_at zero test k h lt = absurd (omega arith)
holds_at (suc n) test k h lt = ground (arith, holds_at n test k)
