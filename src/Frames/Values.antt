-- ===== src/Frames/Values.antt =====
-- src/frames.rs, `parse_phasors`, `parse_analogs` and `parse_digitals`: the numbers in the bytes of a
-- PMU. They return or panic.
pub mod RoundTrip
use Prim.Native.String.{String}
use Prim.Native.String as Text
use pmu_data_analytics.Base.{ℕ, Bool, ◌==◌, if◌then◌else◌, List, ℤ, i16_of_bits, Run, ok, ◌>>=◌}
use pmu_data_analytics.Base.Bytes.{Bytes}
use pmu_data_analytics.Base.Chunks.{chunks, map_outcome, u16_of_chunk, u32_of_chunk}
use pmu_data_analytics.Frames.Config.{PmuConfigurationFrame, has_flag, phasor_size}
use pmu_data_analytics.Frames.Data.{F32, PmuDataFrame}

pub data PmuValues : Type 0 where
  float : List F32 → PmuValues
  fixed : List ℤ → PmuValues

-- The lists are written with `{:?}`, by the parameters.
unfoldable pub as_string : (List F32 → String) → (List ℤ → String) → PmuValues → String
as_string floats integers (float values) = Text.◌++◌ "Float values: " (floats values)
as_string floats integers (fixed values) = Text.◌++◌ "Fixed values: " (integers values)

abbrev pub f32_of_chunk : Bytes → Run F32
f32_of_chunk bytes = do ok (record { bits = (← u32_of_chunk bytes) })

abbrev pub i16_of_chunk : Bytes → Run ℤ
i16_of_chunk bytes = do ok (i16_of_bits (← u16_of_chunk bytes))

-- The numbers of a chunk, of four bytes each in a floating format and of two in a fixed one.
unfoldable pub parse_numbers : Bool → Bytes → Run PmuValues
parse_numbers floating bytes =
    if floating
    then (do ok (float (← map_outcome f32_of_chunk (chunks 4 bytes))))
    else (do ok (fixed (← map_outcome i16_of_chunk (chunks 2 bytes))))

unfoldable pub parse_phasors :
    {T : Type 0} → PmuDataFrame T → PmuConfigurationFrame → Run (List PmuValues)
unfolding parse_numbers
parse_phasors frame config =
    map_outcome (parse_numbers (has_flag config.format 0x0002))
      (chunks (phasor_size config) frame.phasors)

unfoldable pub parse_analogs : {T : Type 0} → PmuDataFrame T → PmuConfigurationFrame → Run PmuValues
unfolding parse_numbers
parse_analogs frame config = parse_numbers (has_flag config.format 0x0004) frame.analog

unfoldable pub parse_digitals : {T : Type 0} → PmuDataFrame T → Run (List ℕ)
parse_digitals frame = map_outcome u16_of_chunk (chunks 2 frame.digital)
