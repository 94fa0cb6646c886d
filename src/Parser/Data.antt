-- ===== src/Parser/Data.antt =====
-- src/frame_parser.rs, `parse_data_frames`.
pub mod Bounds
pub mod Size
pub mod Layout
pub mod RoundTrip
use pmu_data_analytics.Base.{
  ℕ, ◌+◌, ◌-◌, ◌*◌, ◌==◌, if◌then◌else◌, length, List, [], ◌∷◌, i16_of_bits, ok, ◌>>=◌,
}
use pmu_data_analytics.Base.Bytes.{Bytes, slice, u16_at, u32_at}
use pmu_data_analytics.Frames.Config.{
  PmuConfigurationFrame, ConfigurationFrame, phasor_size, analog_size, freq_dfreq_size,
}
use pmu_data_analytics.Frames.Data.{F32, PmuFrameType, fixed, floating, DataFrame}
use pmu_data_analytics.Parser.Errors.{Parse, prefix_size, parse_prefix}

-- The branch for sixteen-bit frequencies: the frame and the offset behind it.
unfoldable pub parse_fixed : Bytes → ℕ → PmuConfigurationFrame → Parse (PmuFrameType × ℕ)
parse_fixed buffer offset c = do
  stat ← u16_at buffer offset
  let after_stat = offset + 2
  phasors ← slice buffer after_stat (after_stat + phasor_size c * c.phnmr)
  let after_phasors = after_stat + phasor_size c * c.phnmr
  freq ← u16_at buffer after_phasors
  let after_freq = after_phasors + 2
  dfreq ← u16_at buffer after_freq
  let after_dfreq = after_freq + 2
  analog ← slice buffer after_dfreq (after_dfreq + analog_size c * c.annmr)
  let after_analog = after_dfreq + analog_size c * c.annmr
  digital ← slice buffer after_analog (after_analog + 2 * c.dgnmr)
  ok (
    fixed (record {
      stat = stat;
      phasors = phasors;
      freq = i16_of_bits freq;
      dfreq = i16_of_bits dfreq;
      analog = analog;
      digital = digital;
    }),
    after_analog + 2 * c.dgnmr,
  )

-- The branch for floating frequencies, which takes twice the phasor bytes.
unfoldable pub parse_floating : Bytes → ℕ → PmuConfigurationFrame → Parse (PmuFrameType × ℕ)
parse_floating buffer offset c = do
  stat ← u16_at buffer offset
  let after_stat = offset + 2
  phasors ← slice buffer after_stat (after_stat + 2 * phasor_size c * c.phnmr)
  let after_phasors = after_stat + 2 * phasor_size c * c.phnmr
  freq ← u32_at buffer after_phasors
  let after_freq = after_phasors + 4
  dfreq ← u32_at buffer after_freq
  let after_dfreq = after_freq + 4
  analog ← slice buffer after_dfreq (after_dfreq + analog_size c * c.annmr)
  let after_analog = after_dfreq + analog_size c * c.annmr
  digital ← slice buffer after_analog (after_analog + 2 * c.dgnmr)
  ok (
    floating (record {
      stat = stat;
      phasors = phasors;
      freq = record { bits = freq };
      dfreq = record { bits = dfreq };
      analog = analog;
      digital = digital;
    }),
    after_analog + 2 * c.dgnmr,
  )

-- The body of the loop over the PMUs.
unfoldable pub parse_pmu : Bytes → ℕ → PmuConfigurationFrame → Parse (PmuFrameType × ℕ)
unfolding parse_fixed parse_floating
parse_pmu buffer offset c =
    if freq_dfreq_size c == 2 then parse_fixed buffer offset c else parse_floating buffer offset c

unfoldable pub parse_pmus : Bytes → ℕ → List PmuConfigurationFrame → Parse (List PmuFrameType)
unfolding parse_pmu
parse_pmus buffer offset [] = ok []
parse_pmus buffer offset (c ∷ cs) = do
  parsed ← parse_pmu buffer offset c
  rest ← parse_pmus buffer parsed.1 cs
  ok (parsed.0 ∷ rest)

unfoldable pub parse_data_frames : Bytes → ConfigurationFrame → Parse DataFrame
unfolding parse_pmus
parse_data_frames buffer config = do
  prefix ← parse_prefix buffer
  pmu_data ← parse_pmus buffer prefix_size config.pmu_configs
  chk ← u16_at buffer (length buffer - 2)
  ok (record { prefix = prefix; pmu_data = pmu_data; chk = chk })
