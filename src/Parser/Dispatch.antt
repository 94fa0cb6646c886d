-- ===== src/Parser/Dispatch.antt =====
-- src/frame_parser.rs, `parse_frame`: the checks on every frame, and the parser for its type.
pub mod Checks
pub mod Accepts
pub mod Commands
pub mod Streams
use pmu_data_analytics.Base.{
  ℕ, ◌-◌, ◌/◌, ◌^◌, Bool, ◌||◌, ◌==◌, if◌then◌else◌, bit_and, length, Option, none, some, ok, err,
  panic, ensure, ◌>>=◌, ◌>>◌,
}
use pmu_data_analytics.Base.Bytes.{Bytes, index, slice, u16_at}
use pmu_data_analytics.Base.Words.{Build}
use pmu_data_analytics.Frames.Crc.{calculate_crc}
use pmu_data_analytics.Frames.Config.{ConfigurationFrame}
use pmu_data_analytics.Frames.Data.{HeaderFrame}
use pmu_data_analytics.Parser.Errors.{
  Parse, ParseError, insufficient_data, invalid_crc, invalid_frame_size, invalid_header,
  version_not_supported, Frame,
}
use pmu_data_analytics.Parser.Command.{parse_command_frame}
use pmu_data_analytics.Parser.Data.{parse_data_frames}
use pmu_data_analytics.Parser.Config.{parse_config_frame_1and2, parse_config_frame_3}

-- `todo!`
unfoldable pub parse_header : Bytes → Parse HeaderFrame
parse_header buffer = panic

-- A data frame can be read only with a configuration.
abbrev pub parse_data_with : Bytes → Option ConfigurationFrame → Parse Frame
parse_data_with buffer none = err insufficient_data
parse_data_with buffer (some config) = do
  frame ← parse_data_frames buffer config
  ok (Frame.data_frame frame)

-- `match frame_type`
unfoldable pub parse_by_type : Build → ℕ → Bytes → Option ConfigurationFrame → Parse Frame
unfolding parse_header
parse_by_type build frame_type buffer config =
    if frame_type == 0
    then parse_data_with buffer config
    else (if frame_type == 1
        then (do h ← parse_header buffer; ok (Frame.header h))
        else (if frame_type == 2 || frame_type == 3
            then (do c ← parse_config_frame_1and2 build buffer; ok (Frame.configuration c))
            else (if frame_type == 5
                then parse_config_frame_3 buffer
                else (if frame_type == 4
                    then parse_command_frame buffer
                    else err invalid_frame_size))))

-- The second byte: the version in bits 3 to 0, the type of the frame in bits 6 to 4.
abbrev pub version_of : ℕ → ℕ
version_of b = bit_and b 0b1111

abbrev pub frame_type_of : ℕ → ℕ
frame_type_of b = bit_and (b / 2 ^ 4) 0b111

unfoldable pub parse_frame : Build → Bytes → Option ConfigurationFrame → Parse Frame
unfolding parse_by_type
parse_frame build buffer config = do
  sync ← u16_at buffer 0
  ensure (sync / 2 ^ 8 == 0xaa) invalid_header
  second ← index buffer 1
  ensure (version_of second == 1 || version_of second == 2) version_not_supported
  framesize ← u16_at buffer 2
  ensure (framesize == length buffer) invalid_frame_size
  body ← slice buffer 0 (length buffer - 2)
  frame_crc ← u16_at buffer (length buffer - 2)
  ensure (calculate_crc body == frame_crc) invalid_crc
  parse_by_type build (frame_type_of second) buffer config
