-- ===== src/Parser/Data/Size.antt =====
-- The size that `calc_data_frame_size` gives against the bytes that `parse_data_frames` takes.
use pmu_data_analytics.Base.{
  ◌+◌, ◌≤◌, ◌<◌, ◌≡◌, refl, length, List, [], ◌∷◌, arith, ok, panic, inl, inr, ◌⊎◌, All, Any,
}
use pmu_data_analytics.Base.Bytes.{Bytes}
use pmu_data_analytics.Frames.Config.{
  PmuConfigurationFrame, ConfigurationFrame, phasor_size, freq_dfreq_size, pmu_data_size,
  calc_data_frame_size,
}
use pmu_data_analytics.Frames.Config.Sizes.{sizes, add_data_sizes-sizes}
use pmu_data_analytics.Frames.Data.{DataFrame}
use pmu_data_analytics.Parser.Data.{parse_data_frames}
use pmu_data_analytics.Parser.Data.Bounds.{
  pmu_len, pmus_len, parse_data_frames-ok, parse_data_frames-panic,
}

-- A PMU that is read as it was sized: sixteen-bit frequencies, or no phasors.
abbrev pub IsSized : PmuConfigurationFrame → Type 0
IsSized c = (freq_dfreq_size c ≡ 2) ⊎ (c.phnmr ≡ 0)

-- A PMU with floating frequencies and at least one phasor.
abbrev pub IsOverread : PmuConfigurationFrame → Type 0
IsOverread c = (freq_dfreq_size c ≡ 4) × (0 < c.phnmr)

pmu_len-IsSized : (c : PmuConfigurationFrame) → IsSized c → pmu_len c ≡ pmu_data_size c
unfolding pmu_len pmu_data_size freq_dfreq_size
pmu_len-IsSized c h = ground arith

pmu_len-IsOverread : (c : PmuConfigurationFrame) → IsOverread c → pmu_data_size c + 4 ≤ pmu_len c
unfolding pmu_len pmu_data_size freq_dfreq_size phasor_size
pmu_len-IsOverread c h = grind arith

pmu_data_size-le : (c : PmuConfigurationFrame) → pmu_data_size c ≤ pmu_len c
unfolding pmu_len pmu_data_size freq_dfreq_size
pmu_data_size-le c = ground arith

sizes-le : (cs : List PmuConfigurationFrame) → sizes cs ≤ pmus_len cs
unfolding sizes pmus_len
sizes-le [] = omega arith
sizes-le (c ∷ cs) = omega (arith, pmu_data_size-le c, sizes-le cs)

pmus_len-IsSized : (cs : List PmuConfigurationFrame) → All IsSized cs → pmus_len cs ≡ sizes cs
unfolding sizes pmus_len
pmus_len-IsSized [] h = refl
pmus_len-IsSized (c ∷ cs) h = omega (arith, pmu_len-IsSized c h.0, pmus_len-IsSized cs h.1)

pmus_len-IsOverread :
    (cs : List PmuConfigurationFrame) → Any IsOverread cs → sizes cs + 4 ≤ pmus_len cs
unfolding sizes pmus_len
pmus_len-IsOverread [] h = absurd h
pmus_len-IsOverread (c ∷ cs) (inl h) = omega (arith, pmu_len-IsOverread c h, sizes-le cs)
pmus_len-IsOverread (c ∷ cs) (inr h) = omega (arith, pmu_data_size-le c, pmus_len-IsOverread cs h)

module _ (buffer : Bytes) (config : ConfigurationFrame) where
  -- On a buffer of exactly the size that `calc_data_frame_size` gives, `parse_data_frames` returns a
  -- frame if every PMU has sixteen-bit frequencies or no phasors.
  pub parse_data_frames_sized :
      length buffer ≡ calc_data_frame_size config
      → All IsSized config.pmu_configs
      → (frame : DataFrame) × (parse_data_frames buffer config ≡ ok frame)
  unfolding calc_data_frame_size
  parse_data_frames_sized e h =
      let cs : List PmuConfigurationFrame = config.pmu_configs in
      parse_data_frames-ok buffer config
        (omega (arith, e, add_data_sizes-sizes 16 cs, pmus_len-IsSized cs h))

  -- On a buffer of exactly the size that `calc_data_frame_size` gives, `parse_data_frames` panics if
  -- some PMU has floating frequencies and a phasor.
  pub parse_data_frames_overread :
      length buffer ≡ calc_data_frame_size config
      → Any IsOverread config.pmu_configs
      → parse_data_frames buffer config ≡ panic
  unfolding calc_data_frame_size
  parse_data_frames_overread e h =
      let cs : List PmuConfigurationFrame = config.pmu_configs in
      parse_data_frames-panic buffer config
        (omega (arith, e, add_data_sizes-sizes 16 cs, pmus_len-IsOverread cs h))
