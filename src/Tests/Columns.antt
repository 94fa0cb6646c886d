-- ===== src/Tests/Columns.antt =====
-- The columns of the phasor in two data frames of one PMU.
use pmu_data_analytics.Base.{map, ◌≡◌, refl, [], ◌∷◌, ok, some, pos, negsuc, List, ℤ, arith}
use pmu_data_analytics.Base.Maps.{lookup}
use pmu_data_analytics.Frames.Prefix
use pmu_data_analytics.Frames.Config.{
  ConfigurationFrame, calc_data_frame_size, pmu_data_size, phasor_size, freq_dfreq_size,
  analog_size,
}
use pmu_data_analytics.Frames.Data.{DataFrame, fixed}
use pmu_data_analytics.Frames.Channels.{ChannelInfo, get_channel_map}
use pmu_data_analytics.Arrow.{int16_array, extract_channel_values}
use pmu_data_analytics.Arrow.{Array, timestamp_array, channel_fields}
use pmu_data_analytics.Arrow.Shape.{HasShape}
use pmu_data_analytics.Base.{concat}
use pmu_data_analytics.Parser.Data.Layout.{put_data_frame}
use pmu_data_analytics.BufferServer.{arrays_of}
use pmu_data_analytics.BufferServer.Times.{IsTimed, arrays_of-times}
use pmu_data_analytics.Arrow.Streams.{IsPhasorRow, frames_bytes, extract_channel_values-phasors}
use pmu_data_analytics.Tests.Streams.{stream, sample}
use pmu_data_analytics.Tests.Channels.{two_names, first_letter, channel_only, first_name, no_more}

abbrev one_pmu : ConfigurationFrame
one_pmu = record stream { pmu_configs = two_names ∷ [] }

-- 57 and 43, 0 and 1 are the bytes of 14635 and 1.
abbrev rows : List (DataFrame × (ℤ × ℤ))
rows = (sample, (pos 14635, pos 1)) ∷ (sample, (pos 14635, pos 1)) ∷ []

row-IsPhasorRow :
    IsPhasorRow (calc_data_frame_size one_pmu) two_names 0 (sample, (pos 14635, pos 1))
unfolding calc_data_frame_size pmu_data_size phasor_size freq_dfreq_size analog_size Prefix.to_hex
row-IsPhasorRow = record {
  pmu = fixed (record {
    stat = 0;
    phasors = 57 ∷ 43 ∷ 0 ∷ 1 ∷ [];
    freq = negsuc 2;
    dfreq = pos 1;
    analog = 0 ∷ 100 ∷ [];
    digital = [];
  });
  others = [];
  values = (pos 14635, pos 1) ∷ [];
  frame_len = refl;
  first_pmu = refl;
  laid_out = refl;
  chosen = refl;
  fits = (omega arith, omega arith);
}

extract_channel_values-phasors_example :
    (info : ChannelInfo) × (lookup "B" (get_channel_map first_letter channel_only one_pmu)
      ≡ some info)
    × (extract_channel_values (frames_bytes rows) (calc_data_frame_size one_pmu) info
        ≡ ok (int16_array (pos 14635 ∷ pos 14635 ∷ []) ∷ int16_array (pos 1 ∷ pos 1 ∷ []) ∷ []))
extract_channel_values-phasors_example =
    extract_channel_values-phasors first_letter channel_only one_pmu two_names 0 "B" rows refl
      (omega arith) first_name no_more refl refl (row-IsPhasorRow, (row-IsPhasorRow, tt))

-- Seven as FRACSEC is seven microseconds here, whatever TIME_BASE is.
sample-IsTimed : IsTimed (calc_data_frame_size one_pmu) sample
unfolding calc_data_frame_size pmu_data_size phasor_size freq_dfreq_size analog_size Prefix.to_hex
sample-IsTimed = (omega arith, refl)

arrays_of-times_example :
    (arrays : List Array) × (arrays_of
        (concat (map put_data_frame (sample ∷ sample ∷ [])))
        (calc_data_frame_size one_pmu)
        (get_channel_map first_letter channel_only one_pmu)
      ≡ ok (timestamp_array (1149577200000007 ∷ 1149577200000007 ∷ []) ∷ arrays))
    × HasShape 2 (channel_fields (get_channel_map first_letter channel_only one_pmu)) arrays
arrays_of-times_example =
    arrays_of-times first_letter channel_only one_pmu (sample ∷ sample ∷ [])
      (sample-IsTimed, (sample-IsTimed, tt))
