-- ===== src/Tests/Reads.antt =====
-- Buffers that end too early.
use pmu_data_analytics.Base.{
  ◌+◌, ◌*◌, ◌%◌, ◌^◌, ◌≤◌, ◌<◌, ◌≡◌, ◌⊎◌, ◌++◌, refl, inl, [], ◌∷◌, length, ok, panic, arith, Any,
  replicate, ltb, if◌then◌else◌,
}
use pmu_data_analytics.Base.Bytes.{Bytes, u16_at}
use pmu_data_analytics.Base.Words.{release, debug}
use pmu_data_analytics.Frames.Config.{
  PmuConfigurationFrame, ConfigurationFrame, calc_data_frame_size, pmu_data_size, freq_dfreq_size,
  phasor_size, analog_size,
}
use pmu_data_analytics.Frames.Data.{DataFrame}
use pmu_data_analytics.Parser.Errors.{ParseError}
use pmu_data_analytics.Parser.Data.{parse_data_frames}
use pmu_data_analytics.Parser.Data.Bounds.{pmus_len, parse_data_frames_bounds}
use pmu_data_analytics.Parser.Data.Size.{
  IsOverread, parse_data_frames_sized, parse_data_frames_overread,
}
use pmu_data_analytics.Parser.Config.{chnam_bytes_len, parse_pmu_config}
use pmu_data_analytics.Parser.Config.Bounds.{parse_pmu_config_bounds}
use pmu_data_analytics.Parser.Config.Short.{chnam_bytes_len_overflow}
use pmu_data_analytics.Tests.Streams.{station, stream}

-- The station with floating frequencies.
abbrev floating_stream : ConfigurationFrame
floating_stream = record stream { pmu_configs = record station { format = 8 } ∷ [] }

abbrev frame_28 : Bytes
frame_28 = replicate 28 0

parse_data_frames_bounds_example :
    ((14 + pmus_len stream.pmu_configs ≤ length frame_28)
      × ((frame : DataFrame) × (parse_data_frames frame_28 stream ≡ ok frame)))
    ⊎ ((length frame_28 < 14 + pmus_len stream.pmu_configs)
        × (parse_data_frames frame_28 stream ≡ panic))
parse_data_frames_bounds_example = parse_data_frames_bounds frame_28 stream

sixteen-size : length frame_28 ≡ calc_data_frame_size stream
unfolding calc_data_frame_size pmu_data_size freq_dfreq_size phasor_size analog_size
sixteen-size = refl

parse_data_frames_sized_example :
    (frame : DataFrame) × (parse_data_frames frame_28 stream ≡ ok frame)
parse_data_frames_sized_example =
    parse_data_frames_sized frame_28 stream sixteen-size (unfold freq_dfreq_size in (inl refl, tt))

abbrev frame_32 : Bytes
frame_32 = replicate 32 0

floating-size : length frame_32 ≡ calc_data_frame_size floating_stream
unfolding calc_data_frame_size pmu_data_size freq_dfreq_size phasor_size analog_size
floating-size = refl

floating-Overread : Any IsOverread floating_stream.pmu_configs
unfolding freq_dfreq_size
floating-Overread = inl (refl, omega arith)

-- The frame of 32 bytes that the configuration announces cannot be read.
parse_data_frames_overread_example : parse_data_frames frame_32 floating_stream ≡ panic
parse_data_frames_overread_example =
    parse_data_frames_overread frame_32 floating_stream floating-size floating-Overread

-- Twenty-six bytes that announce one phasor, and no names behind them.
abbrev fixed_part : Bytes
fixed_part =
    0 ∷ 0 ∷ 0 ∷ 0 ∷ 0 ∷ 0 ∷ 0 ∷ 0 ∷ 0 ∷ 0 ∷ 0 ∷ 0 ∷ 0 ∷ 0 ∷ 0 ∷ 0 ∷ 0 ∷ 7 ∷ 0 ∷ 0 ∷ 0 ∷ 1 ∷ 0 ∷ 0
    ∷ 0 ∷ 0 ∷ []

-- With the name, the unit and the four bytes at the end.
abbrev whole_part : Bytes
whole_part = fixed_part ++ replicate 24 7

counts_at :
    (u16_at {E = ParseError} whole_part 20 ≡ ok 1)
    × (u16_at {E = ParseError} whole_part 22 ≡ ok 0)
    × (u16_at {E = ParseError} whole_part 24 ≡ ok 0)
unfolding u16_at
counts_at = (refl, refl, refl)

parse_pmu_config_bounds_example :
    (50 ≤ 50
      → (c : PmuConfigurationFrame) × (parse_pmu_config release whole_part 0 ≡ ok (c, 50))
        × (c.phnmr ≡ 1)
        × (c.annmr ≡ 0)
        × (c.dgnmr ≡ 0))
    × (50 < 50 → parse_pmu_config release whole_part 0 ≡ panic)
parse_pmu_config_bounds_example =
    parse_pmu_config_bounds release whole_part 0 1 0 0 (omega arith) counts_at.0 counts_at.1
      counts_at.2 (omega arith)

chnam_bytes_len_overflow_example :
    (chnam_bytes_len debug 0 0 4096
      ≡ (if ltb (0 + 0 + 16 * 4096) (2 ^ 16) then ok (16 * (0 + 0 + 16 * 4096)) else panic))
    × (chnam_bytes_len release 0 0 4096 ≡ ok (16 * ((0 + 0 + 16 * 4096) % 2 ^ 16)))
chnam_bytes_len_overflow_example = chnam_bytes_len_overflow 0 0 4096
