-- ===== src/Parser/Data/RoundTrip.antt =====
-- A data frame laid out by the standard's table of fields is read back by `parse_data_frames`.
use pmu_data_analytics.Base.{
  ℕ, ◌+◌, ◌-◌, ◌*◌, ◌/◌, ◌%◌, ◌^◌, ◌<◌, ◌≡◌, refl, sym, ap, ◌∙◌, List, [], ◌∷◌, ◌++◌, length, ℤ,
  pos, negsuc, i16_of_bits, bits_of_i16, ok, arith, append_assoc,
}
use pmu_data_analytics.Base.Bytes.{Bytes, u16_bytes, u32_bytes, u16_at, u16_of_bytes}
use pmu_data_analytics.Base.Bytes.Cursor.{At, At-zero, At-append, slice-At, u16_at-At, u32_at-At}
use pmu_data_analytics.Frames.Prefix
use pmu_data_analytics.Frames.Prefix.{PrefixFrame, IsPrefix}
use pmu_data_analytics.Frames.Prefix.RoundTrip.{u16_round_trip, u32_round_trip, length-to_hex}
use pmu_data_analytics.Frames.Config.{
  PmuConfigurationFrame, ConfigurationFrame, phasor_size, analog_size,
}
use pmu_data_analytics.Frames.Data.{F32, PmuDataFrame, PmuFrameType, fixed, floating, DataFrame}
use pmu_data_analytics.Parser.Errors.{ParseError}
use pmu_data_analytics.Parser.Command.RoundTrip.{parse_prefix-to_hex}
use pmu_data_analytics.Parser.Trailer.{u16_at_crc}
use pmu_data_analytics.Parser.Data.Layout.{
  IsI16, HasLengths, Matches, AllMatch, put_pmu, put_pmus, put_pmus-append, put_data_frame,
}
use pmu_data_analytics.Parser.Data.{
  parse_fixed, parse_floating, parse_pmu, parse_pmus, parse_data_frames,
}

bits_of_i16-lt : (z : ℤ) → IsI16 z → bits_of_i16 z < 2 ^ 16
bits_of_i16-lt (pos n) h = omega arith
bits_of_i16-lt (negsuc n) h = omega arith

i16_of_bits-bits_of_i16 : (z : ℤ) → IsI16 z → i16_of_bits (bits_of_i16 z) ≡ z
i16_of_bits-bits_of_i16 (pos n) h = ground arith
i16_of_bits-bits_of_i16 (negsuc n) h = ground arith

-- `i16::from_be_bytes` undoes `i16::to_be_bytes`.
pub i16_round_trip :
    (z : ℤ)
    → IsI16 z
    → let w = bits_of_i16 z in i16_of_bits (u16_of_bytes (w / 2 ^ 8 % 2 ^ 8) (w % 2 ^ 8)) ≡ z
i16_round_trip z h =
    ap i16_of_bits (u16_round_trip (bits_of_i16 z) (bits_of_i16-lt z h))
    ∙ i16_of_bits-bits_of_i16 z h

module _ (buffer : Bytes) (offset : ℕ) (c : PmuConfigurationFrame) (rest : Bytes) where
  parse_fixed-put :
      (f : PmuDataFrame ℤ)
      → HasLengths ℤ c f
      → IsI16 f.freq
      → IsI16 f.dfreq
      → At buffer offset (put_pmu (fixed f) rest)
      → (end : ℕ) × (parse_fixed buffer offset c ≡ ok (fixed f, end)) × At buffer end rest
  unfolding parse_fixed
  parse_fixed-put f h hf hd at =
      let p : ℕ = phasor_size c * c.phnmr in
      let a : ℕ = analog_size c * c.annmr in
      let d : ℕ = 2 * c.dgnmr in
      let o₁ : ℕ = offset + 2 in
      let o₂ : ℕ = o₁ + p in
      let o₃ : ℕ = o₂ + 2 in
      let o₄ : ℕ = o₃ + 2 in
      let o₅ : ℕ = o₄ + a in
      let at₁ = At-append buffer offset 2 (u16_bytes f.stat) _ at refl in
      let at₂ = At-append buffer o₁ p f.phasors _ at₁ h.phasors_len in
      let at₃ = At-append buffer o₂ 2 (u16_bytes (bits_of_i16 f.freq)) _ at₂ refl in
      let at₄ = At-append buffer o₃ 2 (u16_bytes (bits_of_i16 f.dfreq)) _ at₃ refl in
      let at₅ = At-append buffer o₄ a f.analog _ at₄ h.analog_len in
      let at₆ = At-append buffer o₅ d f.digital rest at₅ h.digital_len in
      (
        o₅ + d,
        rw (
          u16_at-At buffer offset _ _ _ at,
          u16_round_trip f.stat h.stat_u16,
          slice-At buffer o₁ p f.phasors _ at₁ h.phasors_len,
          u16_at-At buffer o₂ _ _ _ at₂,
          u16_at-At buffer o₃ _ _ _ at₃,
          slice-At buffer o₄ a f.analog _ at₄ h.analog_len,
          slice-At buffer o₅ d f.digital rest at₅ h.digital_len,
          i16_round_trip f.freq hf,
          i16_round_trip f.dfreq hd,
        ),
        at₆,
      )

  parse_floating-put :
      (f : PmuDataFrame F32)
      → c.phnmr ≡ 0
      → HasLengths F32 c f
      → f.freq.bits < 2 ^ 32
      → f.dfreq.bits < 2 ^ 32
      → At buffer offset (put_pmu (floating f) rest)
      → (end : ℕ) × (parse_floating buffer offset c ≡ ok (floating f, end)) × At buffer end rest
  unfolding parse_floating
  parse_floating-put f none_of h hf hd at =
      let p : ℕ = 2 * phasor_size c * c.phnmr in
      let a : ℕ = analog_size c * c.annmr in
      let d : ℕ = 2 * c.dgnmr in
      let o₁ : ℕ = offset + 2 in
      let o₂ : ℕ = o₁ + p in
      let o₃ : ℕ = o₂ + 4 in
      let o₄ : ℕ = o₃ + 4 in
      let o₅ : ℕ = o₄ + a in
      let no_phasors : length f.phasors ≡ p = h.phasors_len ∙ rw none_of (omega arith) in
      let at₁ = At-append buffer offset 2 (u16_bytes f.stat) _ at refl in
      let at₂ = At-append buffer o₁ p f.phasors _ at₁ no_phasors in
      let at₃ = At-append buffer o₂ 4 (u32_bytes f.freq.bits) _ at₂ refl in
      let at₄ = At-append buffer o₃ 4 (u32_bytes f.dfreq.bits) _ at₃ refl in
      let at₅ = At-append buffer o₄ a f.analog _ at₄ h.analog_len in
      let at₆ = At-append buffer o₅ d f.digital rest at₅ h.digital_len in
      (
        o₅ + d,
        rw (
          u16_at-At buffer offset _ _ _ at,
          u16_round_trip f.stat h.stat_u16,
          slice-At buffer o₁ p f.phasors _ at₁ no_phasors,
          u32_at-At buffer o₂ _ _ _ _ _ at₂,
          u32_at-At buffer o₃ _ _ _ _ _ at₃,
          slice-At buffer o₄ a f.analog _ at₄ h.analog_len,
          slice-At buffer o₅ d f.digital rest at₅ h.digital_len,
          u32_round_trip f.freq.bits hf,
          u32_round_trip f.dfreq.bits hd,
        ),
        at₆,
      )

  parse_pmu-put :
      (f : PmuFrameType)
      → Matches c f
      → At buffer offset (put_pmu f rest)
      → (end : ℕ) × (parse_pmu buffer offset c ≡ ok (f, end)) × At buffer end rest
  unfolding parse_pmu
  parse_pmu-put (fixed f) m at = rw m.0 (parse_fixed-put f m.1 m.2 m.3 at)
  parse_pmu-put (floating f) m at = rw m.0 (parse_floating-put f m.1 m.2 m.3 m.4 at)

parse_pmus-put :
    (buffer : Bytes) (offset : ℕ) (cs : List PmuConfigurationFrame) (fs : List PmuFrameType)
    (rest : Bytes)
    → AllMatch cs fs
    → At buffer offset (put_pmus fs rest)
    → parse_pmus buffer offset cs ≡ ok fs
unfolding parse_pmus
parse_pmus-put buffer offset [] [] rest m at = refl
parse_pmus-put buffer offset [] (f ∷ fs) rest m at = absurd m
parse_pmus-put buffer offset (c ∷ cs) [] rest m at = absurd m
parse_pmus-put buffer offset (c ∷ cs) (f ∷ fs) rest m at =
    let (end, e, at') = parse_pmu-put buffer offset c (put_pmus fs rest) f m.0 at in
    rw (e, parse_pmus-put buffer end cs fs rest m.1 at')

-- A data frame whose prefix and checksum fit their widths, and which has the fields, in order and
-- of the lengths that the configuration gives for each PMU, is read back as it was, where no PMU
-- with floating frequencies has phasors.
pub parse_data_frames-put :
    (frame : DataFrame) (config : ConfigurationFrame)
    → IsPrefix frame.prefix
    → frame.chk < 2 ^ 16
    → AllMatch config.pmu_configs frame.pmu_data
    → parse_data_frames (put_data_frame frame) config ≡ ok frame
unfolding parse_data_frames
parse_data_frames-put frame config hp hc m =
    let buffer : Bytes = put_data_frame frame in
    let rest : Bytes = put_pmus frame.pmu_data (u16_bytes frame.chk) in
    let at₀ =
      At-append buffer 0 14 (Prefix.to_hex frame.prefix) rest (At-zero buffer)
        (length-to_hex frame.prefix) in
    let front : Bytes = Prefix.to_hex frame.prefix ++ put_pmus frame.pmu_data [] in
    let split : buffer ≡ front ++ u16_bytes frame.chk =
      ap (λ t. Prefix.to_hex frame.prefix ++ t)
        (put_pmus-append frame.pmu_data [] (u16_bytes frame.chk))
      ∙ sym (
          append_assoc (Prefix.to_hex frame.prefix) (put_pmus frame.pmu_data [])
            (u16_bytes frame.chk)) in
    let crc : u16_at {E = ParseError} buffer (length buffer - 2) ≡ ok frame.chk =
      rw split (u16_at_crc front frame.chk hc) in
    rw (
      parse_prefix-to_hex frame.prefix rest hp,
      parse_pmus-put buffer 14 config.pmu_configs frame.pmu_data (u16_bytes frame.chk) m at₀,
      crc,
    )
