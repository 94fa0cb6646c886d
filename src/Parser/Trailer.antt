-- ===== src/Parser/Trailer.antt =====
-- The checksum that ends a frame, and the reads that find it from the end of the buffer.
use pmu_data_analytics.Base.{
  ℕ, ◌+◌, ◌-◌, ◌/◌, ◌%◌, ◌^◌, ◌<◌, ◌≡◌, refl, ap, ◌∙◌, [], ◌++◌, length, length-append, ok, arith,
}
use pmu_data_analytics.Base.Bytes.{Bytes, slice, u16_at, u16_bytes}
use pmu_data_analytics.Base.Bytes.Cursor.{At-zero, At-append, slice-At, u16_at-At}
use pmu_data_analytics.Frames.Prefix.RoundTrip.{u16_round_trip}

abbrev pub with_crc : Bytes → ℕ → Bytes
with_crc body crc = body ++ u16_bytes crc

pub length-with_crc : (body : Bytes) (crc : ℕ) → length (with_crc body crc) ≡ length body + 2
length-with_crc body crc = length-append body (u16_bytes crc)

module _ {E : Type 0} (body : Bytes) (crc : ℕ) where
  pub slice_body : slice {E = E} (with_crc body crc) 0 (length (with_crc body crc) - 2) ≡ ok body
  slice_body =
      let width : length (with_crc body crc) - 2 ≡ 0 + length body =
        omega (arith, length-with_crc body crc) in
      rw width (
        slice-At (with_crc body crc) 0 (length body) body (u16_bytes crc)
          (At-zero (with_crc body crc)) refl)

  pub u16_at_crc :
      crc < 2 ^ 16 → u16_at {E = E} (with_crc body crc) (length (with_crc body crc) - 2) ≡ ok crc
  u16_at_crc h =
      let width : length (with_crc body crc) - 2 ≡ 0 + length body =
        omega (arith, length-with_crc body crc) in
      rw width (
        u16_at-At (with_crc body crc) (0 + length body) (crc / 2 ^ 8 % 2 ^ 8) (crc % 2 ^ 8) [] (
          At-append (with_crc body crc) 0 (length body) body (u16_bytes crc)
            (At-zero (with_crc body crc)) refl)
        ∙ ap ok (u16_round_trip crc h))
