-- ===== src/Base/Bytes.antt =====
-- Byte buffers: indexing and slicing that panic out of range, and big-endian integers.
pub mod Cursor
pub mod Bounds
use Prim.Native.Nat.{ℕ, ◌+◌, ◌-◌, ◌*◌, ◌/◌, ◌%◌, ◌^◌}
use mathlib.Core.Bool.{◌&&◌}
use mathlib.Core.List.{List, [], ◌∷◌}
use pmu_data_analytics.Base.Tests.{leb, if◌then◌else◌}
use pmu_data_analytics.Base.Lists.{length, get_elem?, take, drop}
use pmu_data_analytics.Base.Results.{Outcome, ok, panic, unwrap, ◌>>=◌}

abbrev pub Bytes : Type 0
Bytes = List ℕ

abbrev pub u16_of_bytes : ℕ → ℕ → ℕ
u16_of_bytes a b = a * 2 ^ 8 + b

abbrev pub u32_of_bytes : ℕ → ℕ → ℕ → ℕ → ℕ
u32_of_bytes a b c d = a * 2 ^ 24 + b * 2 ^ 16 + c * 2 ^ 8 + d

-- `u16::to_be_bytes`
abbrev pub u16_bytes : ℕ → Bytes
u16_bytes w = w / 2 ^ 8 % 2 ^ 8 ∷ w % 2 ^ 8 ∷ []

-- `u32::to_be_bytes`
abbrev pub u32_bytes : ℕ → Bytes
u32_bytes w = w / 2 ^ 24 % 2 ^ 8 ∷ w / 2 ^ 16 % 2 ^ 8 ∷ w / 2 ^ 8 % 2 ^ 8 ∷ w % 2 ^ 8 ∷ []

module _ {E : Type 0} where
  -- `buffer[i]`
  unfoldable pub index : Bytes → ℕ → Outcome E ℕ
  index buffer i = unwrap (get_elem? buffer i)

  -- `buffer[a..b]`
  unfoldable pub slice : Bytes → ℕ → ℕ → Outcome E Bytes
  slice buffer a b =
      if leb a b && leb b (length buffer) then ok (take (b - a) (drop a buffer)) else panic

  -- `u16::from_be_bytes([buffer[i], buffer[i + 1]])`
  unfoldable pub u16_at : Bytes → ℕ → Outcome E ℕ
  unfolding index
  u16_at buffer i = do ok (u16_of_bytes (← index buffer i) (← index buffer (i + 1)))

  -- `u32::from_be_bytes` of the four bytes from `i` on
  unfoldable pub u32_at : Bytes → ℕ → Outcome E ℕ
  unfolding index
  u32_at buffer i = do
    a ← index buffer i
    b ← index buffer (i + 1)
    c ← index buffer (i + 2)
    d ← index buffer (i + 3)
    ok (u32_of_bytes a b c d)
