-- ===== src/Base/Masks.antt =====
-- Bit tests and low masks as arithmetic, from the recursion on binary digits.
use Prim.Native.Nat.{ℕ, zero, suc, ◌+◌, ◌*◌, ◌/◌, ◌%◌, ◌^◌, ◌≤◌, min, bit_and, bit_and-bitwise}
use mathlib.Core.Path.{◌≡◌, refl, ap}
use native.Mathlib.Nat.{le_refl, pow-succ', div-div-eq-div-mul}
use native.Mathlib.Omega.{arith}
use pmu_data_analytics.Base.Digits.{digits_enough}

-- The lowest digit, and the rest.
pub bit_and_step : (x y : ℕ) → bit_and x y ≡ bit_and (x / 2) (y / 2) * 2 + min (x % 2) (y % 2)
bit_and_step zero y = omega (arith, bit_and-bitwise 0 y, bit_and-bitwise 0 (y / 2))
bit_and_step (suc x) y = omega (
  arith,
  bit_and-bitwise (suc x) y,
  bit_and-bitwise (suc x / 2) (y / 2),
  digits_enough (λ t. zero) min x (suc x / 2) (suc x / 2) (y / 2) (omega arith) (le_refl _),
)

bit_and-zero_by : (fuel x : ℕ) → x ≤ fuel → bit_and x 0 ≡ 0
bit_and-zero_by fuel zero below = refl
bit_and-zero_by zero (suc x) below = absurd (omega arith)
bit_and-zero_by (suc fuel) (suc x) below =
    omega (arith, bit_and_step (suc x) 0, bit_and-zero_by fuel (suc x / 2) (omega arith))

pub bit_and-zero : (x : ℕ) → bit_and x 0 ≡ 0
bit_and-zero x = bit_and-zero_by x x (le_refl x)

bit_and_double : (x m : ℕ) → bit_and x (2 * m) ≡ bit_and (x / 2) m * 2
bit_and_double x m =
    let halve : 2 * m / 2 ≡ m = omega arith in
    omega (arith, bit_and_step x (2 * m), ap (λ (t : ℕ). bit_and (x / 2) t) halve)

-- Masking with one bit keeps that digit, in its place.
pub bit_and_pow : (k x : ℕ) → bit_and x (2 ^ k) ≡ x / 2 ^ k % 2 * 2 ^ k
bit_and_pow zero x = omega (arith, bit_and_step x 1, bit_and-zero (x / 2))
bit_and_pow (suc k) x =
    rw (pow-succ', bit_and_double, bit_and_pow k (x / 2), div-div-eq-div-mul x 2 (2 ^ k))
      (omega arith)

bit_and_low : (x : ℕ) → bit_and x 1 ≡ x % 2
bit_and_low x = omega (arith, bit_and_step x 1, bit_and-zero (x / 2))

-- Masking with the three low bits.
pub bit_and_three_low : (x : ℕ) → bit_and x 7 ≡ x % 8
bit_and_three_low x =
    omega (arith, bit_and_step x 7, bit_and_step (x / 2) 3, bit_and_low (x / 2 / 2))

-- Masking with the four low bits.
pub bit_and_four_low : (x : ℕ) → bit_and x 15 ≡ x % 16
bit_and_four_low x = omega (arith, bit_and_step x 15, bit_and_three_low (x / 2))
