-- ===== src/Parser/Errors.antt =====
-- src/frame_parser.rs: `ParseError`, `Frame`, and the prefix that each parser reads first.
use pmu_data_analytics.Base.{ℕ, Outcome, ok, err, panic, ◌>>=◌}
use pmu_data_analytics.Base.Bytes.{Bytes, slice}
use pmu_data_analytics.Frames.Prefix
use pmu_data_analytics.Frames.Prefix.{PrefixFrame, LengthError}
use pmu_data_analytics.Frames.Command.{CommandFrame}
use pmu_data_analytics.Frames.Config.{ConfigurationFrame}
use pmu_data_analytics.Frames.Data.{DataFrame, HeaderFrame}

pub data ParseError : Type 0 where
  insufficient_data : ParseError
  invalid_crc : ParseError
  invalid_frame_size : ParseError
  invalid_header : ParseError
  version_not_supported : ParseError
  not_implemented : ParseError

pub data Frame : Type 0 where
  header : HeaderFrame → Frame
  prefix : PrefixFrame → Frame
  configuration : ConfigurationFrame → Frame
  data_frame : DataFrame → Frame
  command : CommandFrame → Frame

abbrev pub Parse : Type 0 → Type 0
Parse A = Outcome ParseError A

abbrev pub prefix_size : ℕ
prefix_size = 14

-- `map_err(|_| ParseError::InvalidHeader)`
abbrev pub as_invalid_header : {A : Type 0} → Outcome LengthError A → Parse A
as_invalid_header (ok a) = ok a
as_invalid_header (err e) = err invalid_header
as_invalid_header panic = panic

-- The two lines that begin each of the parsers.
unfoldable pub parse_prefix : Bytes → Parse PrefixFrame
parse_prefix buffer = do
  prefix_slice ← slice buffer 0 prefix_size
  as_invalid_header (Prefix.from_hex prefix_slice)
