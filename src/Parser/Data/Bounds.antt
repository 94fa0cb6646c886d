-- ===== src/Parser/Data/Bounds.antt =====
-- How much of the buffer `parse_data_frames` takes, and when it panics.
use pmu_data_analytics.Base.{
  ℕ, ◌⊎◌, inl, inr, ◌+◌, ◌-◌, ◌*◌, ◌≤◌, ◌<◌, ◌≡◌, refl, ◌==◌, if◌then◌else◌, length, List, [], ◌∷◌,
  arith, ok, panic, Bool-cases, inl, inr, i16_of_bits,
}
use pmu_data_analytics.Base.Bytes.{Bytes}
use pmu_data_analytics.Base.Bytes.Bounds.{u16_at-ok, u32_at-ok, slice-ok, slice-panic}
use pmu_data_analytics.Frames.Config.{
  PmuConfigurationFrame, ConfigurationFrame, phasor_size, analog_size, freq_dfreq_size,
}
use pmu_data_analytics.Frames.Data.{PmuFrameType, fixed, floating, DataFrame}
use pmu_data_analytics.Parser.Reads.{
  bind-panic, u16_at-NoErr, u32_at-NoErr, slice-NoErr, parse_prefix-ok, parse_prefix-panic,
}
use native.Mathlib.Decide.{dec_lt}
use pmu_data_analytics.Parser.Errors.{ParseError}
use pmu_data_analytics.Parser.Data.{
  parse_fixed, parse_floating, parse_pmu, parse_pmus, parse_data_frames,
}

-- The bytes that one PMU takes in each of the two branches.
abbrev pub fixed_len : PmuConfigurationFrame → ℕ
fixed_len c = 2 + phasor_size c * c.phnmr + 2 + 2 + analog_size c * c.annmr + 2 * c.dgnmr

abbrev pub floating_len : PmuConfigurationFrame → ℕ
floating_len c = 2 + 2 * phasor_size c * c.phnmr + 4 + 4 + analog_size c * c.annmr + 2 * c.dgnmr

unfoldable pub pmu_len : PmuConfigurationFrame → ℕ
pmu_len c = if freq_dfreq_size c == 2 then fixed_len c else floating_len c

unfoldable pub pmus_len : List PmuConfigurationFrame → ℕ
pmus_len [] = 0
pmus_len (c ∷ cs) = pmu_len c + pmus_len cs

module _ (buffer : Bytes) (offset : ℕ) (c : PmuConfigurationFrame) where
  parse_fixed-ok :
      offset + fixed_len c ≤ length buffer
      → (frame : PmuFrameType) × (parse_fixed buffer offset c ≡ ok (frame, offset + fixed_len c))
  unfolding parse_fixed
  parse_fixed-ok h =
      let p : ℕ = phasor_size c * c.phnmr in
      let a : ℕ = analog_size c * c.annmr in
      let d : ℕ = 2 * c.dgnmr in
      let (stat, e₁) = u16_at-ok {E = ParseError} buffer offset (omega arith) in
      let (phasors, e₂, l₂) = slice-ok {E = ParseError} buffer (offset + 2) p (omega arith) in
      let (freq, e₃) = u16_at-ok {E = ParseError} buffer (offset + 2 + p) (omega arith) in
      let (dfreq, e₄) = u16_at-ok {E = ParseError} buffer (offset + 2 + p + 2) (omega arith) in
      let (analog, e₅, l₅) =
        slice-ok {E = ParseError} buffer (offset + 2 + p + 2 + 2) a (omega arith) in
      let (digital, e₆, l₆) =
        slice-ok {E = ParseError} buffer (offset + 2 + p + 2 + 2 + a) d (omega arith) in
      (
        fixed (record {
          stat = stat;
          phasors = phasors;
          freq = i16_of_bits freq;
          dfreq = i16_of_bits dfreq;
          analog = analog;
          digital = digital;
        }),
        rw (e₁, e₂, e₃, e₄, e₅, e₆) (ground arith),
      )

  parse_floating-ok :
      offset + floating_len c ≤ length buffer
      → (frame : PmuFrameType) × (parse_floating buffer offset c
          ≡ ok (frame, offset + floating_len c))
  unfolding parse_floating
  parse_floating-ok h =
      let p : ℕ = 2 * phasor_size c * c.phnmr in
      let a : ℕ = analog_size c * c.annmr in
      let d : ℕ = 2 * c.dgnmr in
      let (stat, e₁) = u16_at-ok {E = ParseError} buffer offset (omega arith) in
      let (phasors, e₂, l₂) = slice-ok {E = ParseError} buffer (offset + 2) p (omega arith) in
      let (freq, e₃) = u32_at-ok {E = ParseError} buffer (offset + 2 + p) (omega arith) in
      let (dfreq, e₄) = u32_at-ok {E = ParseError} buffer (offset + 2 + p + 4) (omega arith) in
      let (analog, e₅, l₅) =
        slice-ok {E = ParseError} buffer (offset + 2 + p + 4 + 4) a (omega arith) in
      let (digital, e₆, l₆) =
        slice-ok {E = ParseError} buffer (offset + 2 + p + 4 + 4 + a) d (omega arith) in
      (
        floating (record {
          stat = stat;
          phasors = phasors;
          freq = record { bits = freq };
          dfreq = record { bits = dfreq };
          analog = analog;
          digital = digital;
        }),
        rw (e₁, e₂, e₃, e₄, e₅, e₆) (ground arith),
      )

  parse_fixed-panic : length buffer < offset + fixed_len c → parse_fixed buffer offset c ≡ panic
  unfolding parse_fixed
  parse_fixed-panic h = bind-panic _ _ (u16_at-NoErr buffer _) λ stat.
      bind-panic _ _ (slice-NoErr buffer _ _) λ phasors.
        bind-panic _ _ (u16_at-NoErr buffer _) λ freq.
          bind-panic _ _ (u16_at-NoErr buffer _) λ dfreq.
            bind-panic _ _ (slice-NoErr buffer _ _) λ analog.
              let last : ℕ =
                offset + 2 + phasor_size c * c.phnmr + 2 + 2 + analog_size c * c.annmr in
              rw (slice-panic buffer last (last + 2 * c.dgnmr) (omega arith))

  parse_floating-panic :
      length buffer < offset + floating_len c → parse_floating buffer offset c ≡ panic
  unfolding parse_floating
  parse_floating-panic h = bind-panic _ _ (u16_at-NoErr buffer _) λ stat.
      bind-panic _ _ (slice-NoErr buffer _ _) λ phasors.
        bind-panic _ _ (u32_at-NoErr buffer _) λ freq.
          bind-panic _ _ (u32_at-NoErr buffer _) λ dfreq.
            bind-panic _ _ (slice-NoErr buffer _ _) λ analog.
              let last : ℕ =
                offset + 2 + 2 * phasor_size c * c.phnmr + 4 + 4 + analog_size c * c.annmr in
              rw (slice-panic buffer last (last + 2 * c.dgnmr) (omega arith))

  parse_pmu-ok :
      offset + pmu_len c ≤ length buffer
      → (frame : PmuFrameType) × (parse_pmu buffer offset c ≡ ok (frame, offset + pmu_len c))
  unfolding parse_pmu pmu_len
  parse_pmu-ok h = elim (Bool-cases (freq_dfreq_size c == 2)) [
    | inl e ↦ rw e (parse_fixed-ok (rw e at h))
    | inr e ↦ rw e (parse_floating-ok (rw e at h))
  ]

  parse_pmu-panic : length buffer < offset + pmu_len c → parse_pmu buffer offset c ≡ panic
  unfolding parse_pmu pmu_len
  parse_pmu-panic h = elim (Bool-cases (freq_dfreq_size c == 2)) [
    | inl e ↦ rw e (parse_fixed-panic (rw e at h))
    | inr e ↦ rw e (parse_floating-panic (rw e at h))
  ]

module _ (buffer : Bytes) where
  parse_pmus-ok :
      (offset : ℕ) (cs : List PmuConfigurationFrame)
      → offset + pmus_len cs ≤ length buffer
      → (frames : List PmuFrameType) × (parse_pmus buffer offset cs ≡ ok frames)
  unfolding parse_pmus pmus_len
  parse_pmus-ok offset [] h = ([], refl)
  parse_pmus-ok offset (c ∷ cs) h =
      let (frame, e) = parse_pmu-ok buffer offset c (omega arith) in
      let (frames, es) = parse_pmus-ok (offset + pmu_len c) cs (omega arith) in
      (frame ∷ frames, rw (e, es))

  parse_pmus-panic :
      (offset : ℕ) (cs : List PmuConfigurationFrame)
      → offset ≤ length buffer
      → length buffer < offset + pmus_len cs
      → parse_pmus buffer offset cs ≡ panic
  unfolding parse_pmus pmus_len
  parse_pmus-panic offset [] l h = absurd (omega arith)
  parse_pmus-panic offset (c ∷ cs) l h = elim (dec_lt (length buffer) (offset + pmu_len c)) [
    | yes short ↦ rw (parse_pmu-panic buffer offset c short)
    | no long ↦
        let (frame, e) = parse_pmu-ok buffer offset c (omega arith) in
        rw (e, parse_pmus-panic (offset + pmu_len c) cs (omega arith) (omega arith))
  ]

module _ (buffer : Bytes) (config : ConfigurationFrame) where
  pub parse_data_frames-ok :
      14 + pmus_len config.pmu_configs ≤ length buffer
      → (frame : DataFrame) × (parse_data_frames buffer config ≡ ok frame)
  unfolding parse_data_frames
  parse_data_frames-ok h =
      let (p, e₁) = parse_prefix-ok buffer (omega arith) in
      let (frames, e₂) = parse_pmus-ok buffer 14 config.pmu_configs h in
      let (chk, e₃) = u16_at-ok {E = ParseError} buffer (length buffer - 2) (omega arith) in
      (record { prefix = p; pmu_data = frames; chk = chk }, rw (e₁, e₂, e₃))

  pub parse_data_frames-panic :
      length buffer < 14 + pmus_len config.pmu_configs → parse_data_frames buffer config ≡ panic
  unfolding parse_data_frames
  parse_data_frames-panic h = elim (dec_lt (length buffer) 14) [
    | yes short ↦ rw (parse_prefix-panic buffer short)
    | no long ↦
        let (p, e₁) = parse_prefix-ok buffer (omega arith) in
        rw (e₁, parse_pmus-panic buffer 14 config.pmu_configs (omega arith) h)
  ]

-- For any buffer and configuration, either the buffer has the prefix and the bytes that the loop
-- over the PMUs takes and `parse_data_frames` returns a frame, or the buffer has fewer and it
-- panics. It never returns an error.
pub parse_data_frames_bounds :
    (buffer : Bytes) (config : ConfigurationFrame)
    → ((14 + pmus_len config.pmu_configs ≤ length buffer)
        × ((frame : DataFrame) × (parse_data_frames buffer config ≡ ok frame)))
      ⊎ ((length buffer < 14 + pmus_len config.pmu_configs)
          × (parse_data_frames buffer config ≡ panic))
parse_data_frames_bounds buffer config =
    elim (dec_lt (length buffer) (14 + pmus_len config.pmu_configs)) [
      | yes short ↦ inr (short, parse_data_frames-panic buffer config short)
      | no long ↦ inl (omega arith, parse_data_frames-ok buffer config (omega arith))
    ]
