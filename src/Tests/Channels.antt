-- ===== src/Tests/Channels.antt =====
-- The channel map of two equal PMUs, with names that are told apart by their first letter.
use Prim.Native.String.{String}
use pmu_data_analytics.Base.{
  ℕ, ◌==◌, if◌then◌else◌, ◌+◌, ◌*◌, ◌≡◌, ◌++◌, refl, [], ◌∷◌, some, get_elem?, drop, arith,
  replicate,
}
use pmu_data_analytics.Base.Bytes.{Bytes}
use pmu_data_analytics.Base.Chunks.{chunks}
use pmu_data_analytics.Base.Maps.{lookup}
use pmu_data_analytics.Frames.Config.{
  PmuConfigurationFrame, ConfigurationFrame, calc_data_frame_size, phasor_size,
}
use pmu_data_analytics.Frames.Channels.{ChannelInfo, phasor_type, get_column_names, get_channel_map}
use pmu_data_analytics.Frames.Channels.Drift.{HasNames}
use pmu_data_analytics.Frames.Channels.Places.{Without, get_channel_map-phasor}
use pmu_data_analytics.Tests.Streams.{station, stream}

abbrev pub two_names : PmuConfigurationFrame
two_names = record station { chnam = replicate 16 66 ++ replicate 16 67 }

abbrev two_pmus : ConfigurationFrame
two_pmus = record stream { pmu_configs = two_names ∷ two_names ∷ [] }

abbrev pub first_letter : Bytes → String
first_letter [] = ""
first_letter (b ∷ rest) = if b == 66 then "B" else (if b == 67 then "C" else "A")

abbrev pub channel_only : String → ℕ → String → String
channel_only station_name id_code channel = channel

enough : HasNames first_letter channel_only two_names
unfolding get_column_names chunks
enough = omega arith

pub first_name : get_elem? (get_column_names first_letter channel_only two_names) 0 ≡ some "B"
unfolding get_column_names chunks
first_name = refl

pub no_more : Without "B" (drop 1 (get_column_names first_letter channel_only two_names))
unfolding get_column_names chunks
no_more = (refl, tt)

get_channel_map-phasor_example :
    (info : ChannelInfo) × (lookup "B" (get_channel_map first_letter channel_only two_pmus)
      ≡ some info)
    × (info.data_type ≡ phasor_type two_names)
    × (info.size ≡ phasor_size two_names)
    × (info.offset + 2 * 1
        ≡ calc_data_frame_size (record two_pmus { pmu_configs = two_names ∷ [] })
          + phasor_size two_names * 0)
get_channel_map-phasor_example =
    get_channel_map-phasor first_letter channel_only two_pmus (two_names ∷ []) two_names 0 "B" refl
      (enough, tt) (omega arith) first_name no_more refl refl
