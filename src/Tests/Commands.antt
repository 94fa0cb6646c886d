-- ===== src/Tests/Commands.antt =====
-- Command frames through the parser.
use pmu_data_analytics.Base.{All, ◌≡◌, refl, inr, [], ◌∷◌, some, none, ok, arith}
use pmu_data_analytics.Base.Words.{release, debug}
use pmu_data_analytics.Frames.Crc.{calculate_crc}
use pmu_data_analytics.Frames.Command.{CommandFrame, payload, to_hex, new_command}
use pmu_data_analytics.Parser.Errors.{Frame}
use pmu_data_analytics.Parser.Command.RoundTrip.{IsCommand}
use pmu_data_analytics.Frames.Prefix
use pmu_data_analytics.Frames.Crc.Detect.{IsByte}
use pmu_data_analytics.Parser.Dispatch.{parse_frame, parse_by_type, frame_type_of}
use pmu_data_analytics.Parser.Dispatch.Accepts.{IsAccepted, parse_frame_accepts}
use pmu_data_analytics.Parser.Dispatch.Commands.{parse_frame-to_hex, parse_frame-new_command}

-- A command with an extended frame of two bytes.
abbrev extended : CommandFrame
extended = record {
  prefix = record { sync = 0xaa42; framesize = 20; idcode = 7660; soc = 5; fracsec = 6 };
  command = 8;
  extframe = some (17 ∷ 18 ∷ []);
  chk = 0;
}

extended-IsCommand : IsCommand extended
extended-IsCommand = record {
  prefix_fits = omega arith;
  command_u16 = omega arith;
  ext_fits = omega arith;
  size = refl;
}

parse_frame-to_hex_example :
    parse_frame release (to_hex extended) none
    ≡ ok (Frame.command (record extended { chk = calculate_crc (payload extended) }))
parse_frame-to_hex_example =
    parse_frame-to_hex release extended none extended-IsCommand
      (record { lead = refl; version = inr refl; type_bits = refl })

turn_on-bytes : All IsByte (to_hex (new_command 7660 2))
unfolding to_hex new_command Prefix.to_hex
turn_on-bytes = omega arith

parse_frame_accepts_example :
    (h : IsAccepted (to_hex (new_command 7660 2))) × (parse_by_type debug
        (frame_type_of h.second)
        (to_hex (new_command 7660 2))
        none
      ≡ ok (
          Frame.command
            (record (new_command 7660 2) { chk = calculate_crc (payload (new_command 7660 2)) })))
parse_frame_accepts_example =
    parse_frame_accepts debug (to_hex (new_command 7660 2)) none
      (Frame.command
        (record (new_command 7660 2) { chk = calculate_crc (payload (new_command 7660 2)) }))
      turn_on-bytes (parse_frame-new_command debug 7660 2 none (omega arith) (omega arith))
