-- ===== src/Base/Digits.antt =====
-- The recursion on binary digits that the native bit operations stand for does not depend on its
-- fuel, once there is enough.
use Prim.Native.Nat.{ℕ, zero, suc, ◌/◌, ◌≤◌, digits}
use mathlib.Core.Path.{◌≡◌, refl}
use native.Mathlib.Omega.{arith}

module _ (tail : ℕ → ℕ) (combine : ℕ → ℕ → ℕ) where
  pub digits_enough :
      (fuel more x y : ℕ)
      → x ≤ fuel
      → x ≤ more
      → digits tail combine fuel x y ≡ digits tail combine more x y
  digits_enough (suc fuel) (suc more) (suc x) y below under =
      rw (digits_enough fuel more (suc x / 2) (y / 2) (omega arith) (omega arith))
  digits_enough (suc fuel) (suc more) zero y below under = refl
  digits_enough (suc fuel) zero zero y below under = refl
  digits_enough (suc fuel) zero (suc x) y below under = absurd (omega arith)
  digits_enough zero (suc more) zero y below under = refl
  digits_enough zero (suc more) (suc x) y below under = absurd (omega arith)
  digits_enough zero zero x y below under = refl
