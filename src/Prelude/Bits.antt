-- ===== src/Prelude/Bits.antt =====
-- Checks over every value of a small range, from which the bit facts about bytes follow.
use Prim.Native.Nat.{ℕ, zero, suc, ◌<◌}
use mathlib.Core.Path.{◌≡◌}
use mathlib.Core.Bool.{Bool, true, false}
use native.Mathlib.Omega.{arith}
use kanaos.Prelude.Tests.{if◌then◌else◌}

-- The test holds of n - 1, …, 0.
unfoldable pub holds_below : (ℕ → Bool) → ℕ → Bool
holds_below test zero = true
holds_below test (suc n) = if test n then holds_below test n else false

module _ (test : ℕ → Bool) where
  pub holds_below_lem : {n : ℕ} (x : ℕ) → holds_below test n ≡ true → x < n → test x ≡ true
  unfolding holds_below
  holds_below_lem {n = zero} x h small = absurd (omega arith)
  holds_below_lem {n = suc n} x h small = ground (arith, holds_below_lem {n = n} x)
