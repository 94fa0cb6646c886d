-- ===== src/Base/Bytes/Bounds.antt =====
-- Reads succeed exactly within the buffer.
use Prim.Native.Nat.{ℕ, ◌+◌, ◌-◌, ◌≤◌, ◌<◌}
use mathlib.Core.Path.{◌≡◌, subst}
use native.Mathlib.Nat.{zero-add}
use native.Mathlib.Omega.{arith}
use pmu_data_analytics.Base.Tests.{le→leb}
use pmu_data_analytics.Base.Lists.{
  length, take, drop, get_elem?-IsSome, get_elem?-IsNone, length-take, length-drop,
}
use pmu_data_analytics.Base.Results.{ok, panic}
use pmu_data_analytics.Base.Bytes.{Bytes, index, slice, u16_at, u32_at, u16_of_bytes, u32_of_bytes}

module _ {E : Type 0} where
  pub index-ok :
      (buffer : Bytes) (i : ℕ) → i < length buffer → (b : ℕ) × (index {E = E} buffer i ≡ ok b)
  unfolding index
  index-ok buffer i h = let (b, e) = get_elem?-IsSome buffer i h in (b, rw e)

  pub index-panic : (buffer : Bytes) (i : ℕ) → length buffer ≤ i → index {E = E} buffer i ≡ panic
  unfolding index
  index-panic buffer i h = rw (get_elem?-IsNone buffer i h)

  pub u16_at-ok :
      (buffer : Bytes) (i : ℕ) → i + 2 ≤ length buffer → (w : ℕ) × (u16_at {E = E} buffer i ≡ ok w)
  unfolding u16_at
  u16_at-ok buffer i h =
      let (a, ea) = get_elem?-IsSome buffer i (omega arith) in
      let (b, eb) = get_elem?-IsSome buffer (i + 1) (omega arith) in (u16_of_bytes a b, rw (ea, eb))

  pub u16_at-panic :
      (buffer : Bytes) (i : ℕ) → length buffer < i + 2 → u16_at {E = E} buffer i ≡ panic
  unfolding u16_at
  u16_at-panic buffer i h = ground (arith, get_elem?-IsNone buffer (i + 1) (omega arith))

  pub u32_at-ok :
      (buffer : Bytes) (i : ℕ) → i + 4 ≤ length buffer → (w : ℕ) × (u32_at {E = E} buffer i ≡ ok w)
  unfolding u32_at
  u32_at-ok buffer i h =
      let (a, ea) = get_elem?-IsSome buffer i (omega arith) in
      let (b, eb) = get_elem?-IsSome buffer (i + 1) (omega arith) in
      let (c, ec) = get_elem?-IsSome buffer (i + 2) (omega arith) in
      let (d, ed) = get_elem?-IsSome buffer (i + 3) (omega arith) in
      (u32_of_bytes a b c d, rw (ea, eb, ec, ed))

  pub u32_at-panic :
      (buffer : Bytes) (i : ℕ) → length buffer < i + 4 → u32_at {E = E} buffer i ≡ panic
  unfolding u32_at
  u32_at-panic buffer i h = ground (arith, get_elem?-IsNone buffer (i + 3) (omega arith))

  pub slice-ok :
      (buffer : Bytes) (a n : ℕ)
      → a + n ≤ length buffer
      → (block : Bytes) × (slice {E = E} buffer a (a + n) ≡ ok block) × (length block ≡ n)
  unfolding slice
  slice-ok buffer a n h = (
    take (a + n - a) (drop a buffer),
    rw (le→leb a (a + n) (omega arith), le→leb (a + n) (length buffer) h),
    omega (arith, length-take {0} (a + n - a) (drop a buffer), length-drop {0} a buffer),
  )

  pub slice-panic :
      (buffer : Bytes) (a b : ℕ) → length buffer < b → slice {E = E} buffer a b ≡ panic
  unfolding slice
  slice-panic buffer a b h = ground arith

  -- `buffer[..n]`
  pub first_slice :
      (buffer : Bytes) (n : ℕ)
      → n ≤ length buffer
      → (block : Bytes) × (slice {E = E} buffer 0 n ≡ ok block) × (length block ≡ n)
  first_slice buffer n h =
      subst (λ end. (block : Bytes) × (slice {E = E} buffer 0 end ≡ ok block) × (length block ≡ n))
        (zero-add n) (slice-ok buffer 0 n (omega arith))
