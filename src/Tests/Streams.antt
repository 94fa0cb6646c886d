-- ===== src/Tests/Streams.antt =====
-- A stream of one PMU: its configuration frame and a data frame, through the parser.
use pmu_data_analytics.Base.{
  ◌≡◌, refl, inl, inr, [], ◌∷◌, some, none, ok, err, All, arith, pos, negsuc, replicate, ◌==◌,
  if◌then◌else◌,
}
use pmu_data_analytics.Base.Bytes.{Bytes}
use pmu_data_analytics.Base.Words.{release, debug}
use pmu_data_analytics.Frames.Crc.{calculate_crc}
use pmu_data_analytics.Frames.Crc.Detect.{IsByte, calculate_crc-IsWord}
use pmu_data_analytics.Frames.Prefix
use pmu_data_analytics.Frames.Config.{
  PmuConfigurationFrame, ConfigurationFrame, freq_dfreq_size, phasor_size, analog_size,
}
use pmu_data_analytics.Frames.Data.{DataFrame, fixed}
use pmu_data_analytics.Parser.Errors.{Frame, invalid_crc}
use pmu_data_analytics.Parser.Trailer.{with_crc}
use pmu_data_analytics.Parser.Data.Layout.{AllMatch, put_data_frame}
use pmu_data_analytics.Parser.Config.Layout.{IsConfig, IsPmuConfig, put_config_frame}
use pmu_data_analytics.Parser.Dispatch.{parse_frame, parse_by_type, frame_type_of}
use pmu_data_analytics.Parser.Dispatch.Checks.{
  body_of, IsFramed, parse_frame_checks, parse_frame-corrupt,
}
use pmu_data_analytics.Parser.Dispatch.Streams.{
  data_body, config_body, parse_frame-data, parse_frame-config,
}

-- Sixteen-bit fields, one phasor, one analog channel.
abbrev pub station : PmuConfigurationFrame
station = record {
  stn = replicate 16 65;
  idcode = 7660;
  format = 0;
  phnmr = 1;
  annmr = 1;
  dgnmr = 0;
  chnam = replicate 32 66;
  phunit = 915527 ∷ [];
  anunit = 1 ∷ [];
  digunit = [];
  fnom = 1;
  cfgcnt = 22;
}

abbrev stream_unsealed : ConfigurationFrame
stream_unsealed = record {
  prefix = record { sync = 0xaa31; framesize = 94; idcode = 7660; soc = 1149577200; fracsec = 0 };
  time_base = 1000000;
  num_pmu = 1;
  pmu_configs = station ∷ [];
  data_rate = pos 30;
  chk = 0;
}

abbrev pub stream : ConfigurationFrame
stream = record stream_unsealed { chk = calculate_crc (config_body stream_unsealed) }

pub stream-bytes : All IsByte (config_body stream)
unfolding Prefix.to_hex
stream-bytes = omega arith

station-IsPmuConfig : IsPmuConfig station
station-IsPmuConfig = record {
  stn_len = refl;
  idcode_u16 = omega arith;
  format_u16 = omega arith;
  phnmr_u16 = omega arith;
  annmr_u16 = omega arith;
  dgnmr_u16 = omega arith;
  fnom_u16 = omega arith;
  cfgcnt_u16 = omega arith;
  channels_u16 = omega arith;
  chnam_len = refl;
  phunit_len = refl;
  anunit_len = refl;
  digunit_len = refl;
  phunit_u32 = omega arith;
  anunit_u32 = omega arith;
  digunit_u32 = tt;
}

pub stream-IsConfig : IsConfig stream
stream-IsConfig = record {
  prefix_fits = omega arith;
  time_base_u32 = omega arith;
  num_pmu_u16 = omega arith;
  num_pmu_len = refl;
  pmus_fit = (station-IsPmuConfig, tt);
  data_rate_i16 = omega arith;
  chk_u16 = calculate_crc-IsWord (config_body stream) stream-bytes;
}

abbrev sample_unsealed : DataFrame
sample_unsealed = record {
  prefix = record { sync = 0xaa01; framesize = 28; idcode = 7660; soc = 1149577200; fracsec = 7 };
  pmu_data =
      fixed (record {
        stat = 0;
        phasors = 57 ∷ 43 ∷ 0 ∷ 1 ∷ [];
        freq = negsuc 2;
        dfreq = pos 1;
        analog = 0 ∷ 100 ∷ [];
        digital = [];
      })
      ∷ [];
  chk = 0;
}

abbrev pub sample : DataFrame
sample = record sample_unsealed { chk = calculate_crc (data_body sample_unsealed) }

sample-bytes : All IsByte (data_body sample)
unfolding Prefix.to_hex
sample-bytes = omega arith

sample-AllMatch : AllMatch stream.pmu_configs sample.pmu_data
unfolding freq_dfreq_size phasor_size analog_size
sample-AllMatch = (
  (
    refl,
    record { stat_u16 = omega arith; phasors_len = refl; analog_len = refl; digital_len = refl },
    omega arith,
    omega arith,
  ),
  tt,
)

parse_frame-data_example :
    parse_frame release (put_data_frame sample) (some stream) ≡ ok (Frame.data_frame sample)
parse_frame-data_example =
    parse_frame-data release sample stream (omega arith)
      (record { lead = refl; version = inl refl; type_bits = refl }) refl sample-bytes
      sample-AllMatch refl

parse_frame-config_example :
    parse_frame debug (put_config_frame stream) none ≡ ok (Frame.configuration stream)
parse_frame-config_example =
    parse_frame-config debug 3 stream none (inr refl) stream-IsConfig
      (record { lead = refl; version = inl refl; type_bits = refl }) refl stream-bytes refl

-- The bytes of a command behind its size, for the stream 1.
abbrev turn_on : Bytes
turn_on = 0 ∷ 1 ∷ 0 ∷ 0 ∷ 0 ∷ 0 ∷ 0 ∷ 0 ∷ 0 ∷ 0 ∷ 0 ∷ 2 ∷ []

turn_on-IsFramed : IsFramed 0x41 0 18 turn_on
turn_on-IsFramed = record { second_byte = omega arith; version = inl refl; size = refl }

parse_frame_checks_example : parse_frame debug (with_crc (body_of 0x41 0 18 turn_on) 7) none ≡ (
    if calculate_crc (body_of 0x41 0 18 turn_on) == 7
    then parse_by_type debug (frame_type_of 0x41) (with_crc (body_of 0x41 0 18 turn_on) 7) none
    else err invalid_crc)
parse_frame_checks_example =
    parse_frame_checks debug 0x41 0 18 turn_on 7 none turn_on-IsFramed (omega arith)

parse_frame-corrupt_example :
    parse_frame debug
      (with_crc
        (body_of 0x41 0 18 (0 ∷ 9 ∷ 0 ∷ 0 ∷ 0 ∷ 0 ∷ 0 ∷ 0 ∷ 0 ∷ 0 ∷ 0 ∷ 2 ∷ []))
        (calculate_crc (body_of 0x41 0 18 turn_on)))
      none
    ≡ err invalid_crc
parse_frame-corrupt_example =
    parse_frame-corrupt debug 0x41 0 18 none (0 ∷ []) (0 ∷ 0 ∷ 0 ∷ 0 ∷ 0 ∷ 0 ∷ 0 ∷ 0 ∷ 0 ∷ 2 ∷ []) 1
      9 turn_on-IsFramed (omega arith) (omega arith) (omega arith) (omega arith) (omega arith)
