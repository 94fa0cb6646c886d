-- ===== src/Base/Int.antt =====
-- Signed integers, and an `i16` as the integer of its bit pattern.
use Prim.Native.Nat.{ℕ, suc, ◌-◌, ◌^◌, compare, Ordering}

-- `negsuc n` is -(n + 1).
pub data ℤ : Type 0 where
  pos : ℕ → ℤ
  negsuc : ℕ → ℤ

-- The absolute value, which for an `i16` is exact as an `f64`.
abbrev pub nat_abs : ℤ → ℕ
nat_abs (pos n) = n
nat_abs (negsuc n) = suc n

-- Two's complement on sixteen bits.
abbrev pub i16_of_bits : ℕ → ℤ
i16_of_bits w = elim (compare w (2 ^ 15)) [ Ordering.lt ↦ pos w | _ ↦ negsuc (2 ^ 16 - w - 1) ]

-- The bit pattern of an `i16`.
abbrev pub bits_of_i16 : ℤ → ℕ
bits_of_i16 (pos n) = n
bits_of_i16 (negsuc n) = 2 ^ 16 - n - 1
