-- ===== src/Parser/Command.antt =====
-- src/frame_parser.rs, `parse_command_frame`.
pub mod RoundTrip
use pmu_data_analytics.Base.{ℕ, ◌+◌, ◌-◌, ltb, if◌then◌else◌, length, Option, none, some, ok, ◌>>=◌}
use pmu_data_analytics.Base.Bytes.{Bytes, slice, u16_at}
use pmu_data_analytics.Frames.Command.{CommandFrame}
use pmu_data_analytics.Parser.Errors.{Parse, Frame, prefix_size, parse_prefix}

-- The extended frame is what stands between the command word and the checksum, if anything does.
unfoldable pub parse_extframe : Bytes → Parse (Option Bytes)
parse_extframe buffer =
    if ltb (prefix_size + 4) (length buffer)
    then (do ext ← slice buffer (prefix_size + 2) (length buffer - 2); ok (some ext))
    else ok none

unfoldable pub parse_command_frame : Bytes → Parse Frame
unfolding parse_extframe
parse_command_frame buffer = do
  prefix ← parse_prefix buffer
  word ← u16_at buffer prefix_size
  extframe ← parse_extframe buffer
  chk ← u16_at buffer (length buffer - 2)
  ok (Frame.command (record { prefix = prefix; command = word; extframe = extframe; chk = chk }))
