-- ===== src/Base/Bits.antt =====
-- Laws of exclusive or at variables, from the recursion on binary digits that it stands for.
use Prim.Native.Nat.{
  ℕ, zero, suc, ◌+◌, ◌*◌, ◌/◌, ◌%◌, ◌^◌, ◌≤◌, ◌<◌, bit_xor, differ, bit_xor-bitwise,
}
use mathlib.Core.Path.{◌≡◌, refl, ap}
use native.Mathlib.Nat.{le_refl, pow-suc}
use native.Mathlib.Omega.{arith}
use pmu_data_analytics.Base.Digits.{digits_enough}

differ_bits : (u w : ℕ) → u < 2 → w < 2 → differ u w ≡ (u + w) % 2
differ_bits zero zero below under = refl
differ_bits zero (suc zero) below under = refl
differ_bits (suc zero) zero below under = refl
differ_bits (suc zero) (suc zero) below under = refl
differ_bits zero (suc (suc w)) below under = absurd (omega arith)
differ_bits (suc zero) (suc (suc w)) below under = absurd (omega arith)
differ_bits (suc (suc u)) w below under = absurd (omega arith)

differ_parity : (x y : ℕ) → differ (x % 2) (y % 2) ≡ (x + y) % 2
differ_parity x y = omega (arith, differ_bits (x % 2) (y % 2) (omega arith) (omega arith))

-- The lowest digit, and the rest.
pub bit_xor_step : (x y : ℕ) → bit_xor x y ≡ bit_xor (x / 2) (y / 2) * 2 + (x + y) % 2
bit_xor_step zero y = omega (arith, bit_xor-bitwise 0 y, bit_xor-bitwise 0 (y / 2))
bit_xor_step (suc x) y = omega (
  arith,
  bit_xor-bitwise (suc x) y,
  bit_xor-bitwise (suc x / 2) (y / 2),
  digits_enough (λ t. t) differ x (suc x / 2) (suc x / 2) (y / 2) (omega arith) (le_refl _),
  differ_parity (suc x) y,
)

pub bit_xor_parity : (x y : ℕ) → bit_xor x y % 2 ≡ (x + y) % 2
bit_xor_parity x y = omega (arith, bit_xor_step x y)

-- Shifting right commutes with exclusive or.
pub bit_xor_half : (x y : ℕ) → bit_xor x y / 2 ≡ bit_xor (x / 2) (y / 2)
bit_xor_half x y = omega (arith, bit_xor_step x y)

bit_xor_cancel_fuel : (fuel x y : ℕ) → x ≤ fuel → y ≤ fuel → bit_xor (bit_xor x y) y ≡ x
bit_xor_cancel_fuel zero zero zero below under = refl
bit_xor_cancel_fuel zero zero (suc y) below under = absurd (omega arith)
bit_xor_cancel_fuel zero (suc x) y below under = absurd (omega arith)
bit_xor_cancel_fuel (suc fuel) x y below under = omega (
  arith,
  bit_xor_step (bit_xor x y) y,
  bit_xor_parity x y,
  ap (λ (t : ℕ). bit_xor t (y / 2)) (bit_xor_half x y),
  bit_xor_cancel_fuel fuel (x / 2) (y / 2) (omega arith) (omega arith),
)

-- A second exclusive or undoes the first.
pub bit_xor_cancel : (x y : ℕ) → bit_xor (bit_xor x y) y ≡ x
bit_xor_cancel x y = bit_xor_cancel_fuel (x + y) x y (omega arith) (omega arith)

bit_xor_self_fuel : (fuel x : ℕ) → x ≤ fuel → bit_xor x x ≡ 0
bit_xor_self_fuel zero zero below = refl
bit_xor_self_fuel zero (suc x) below = absurd (omega arith)
bit_xor_self_fuel (suc fuel) x below =
    omega (arith, bit_xor_step x x, bit_xor_self_fuel fuel (x / 2) (omega arith))

pub bit_xor_self : (x : ℕ) → bit_xor x x ≡ 0
bit_xor_self x = bit_xor_self_fuel x x (le_refl x)

pub zero-bit_xor : (y : ℕ) → bit_xor 0 y ≡ y
zero-bit_xor y = bit_xor-bitwise 0 y

-- Exclusive or of two words fits the word.
pub bit_xor-lt : (k x y : ℕ) → x < 2 ^ k → y < 2 ^ k → bit_xor x y < 2 ^ k
bit_xor-lt zero zero zero below under = omega arith
bit_xor-lt zero zero (suc y) below under = absurd (omega arith)
bit_xor-lt zero (suc x) y below under = absurd (omega arith)
bit_xor-lt (suc k) x y below under = omega (
  arith,
  pow-suc 2 k,
  bit_xor_step x y,
  bit_xor-lt k (x / 2) (y / 2) (omega (arith, pow-suc 2 k)) (omega (arith, pow-suc 2 k)),
)

mul-two-pow-suc : (under k : ℕ) → under * 2 ^ suc k ≡ 2 * (under * 2 ^ k)
mul-two-pow-suc under k = omega (arith, ap (λ (t : ℕ). under * t) (pow-suc 2 k))

-- Below the shift, the bits of the first operand are kept; above it the fields are combined.
pub bit_xor_fields :
    (k h g l : ℕ) → l < 2 ^ k → bit_xor (h * 2 ^ k + l) (g * 2 ^ k) ≡ bit_xor h g * 2 ^ k + l
bit_xor_fields zero h g l below = ground arith
bit_xor_fields (suc k) h g l below = ground (
  arith,
  bit_xor_step (h * 2 ^ suc k + l) (g * 2 ^ suc k),
  mul-two-pow-suc h k,
  mul-two-pow-suc g k,
  mul-two-pow-suc (bit_xor h g) k,
  pow-suc 2 k,
  bit_xor_fields k h g (l / 2) (omega (arith, pow-suc 2 k)),
)

bit_xor_comm_fuel : (fuel x y : ℕ) → x ≤ fuel → y ≤ fuel → bit_xor x y ≡ bit_xor y x
bit_xor_comm_fuel zero zero zero below under = refl
bit_xor_comm_fuel zero zero (suc y) below under = absurd (omega arith)
bit_xor_comm_fuel zero (suc x) y below under = absurd (omega arith)
bit_xor_comm_fuel (suc fuel) x y below under = omega (
  arith,
  bit_xor_step x y,
  bit_xor_step y x,
  bit_xor_comm_fuel fuel (x / 2) (y / 2) (omega arith) (omega arith),
)

pub bit_xor_comm : (x y : ℕ) → bit_xor x y ≡ bit_xor y x
bit_xor_comm x y = bit_xor_comm_fuel (x + y) x y (omega arith) (omega arith)
