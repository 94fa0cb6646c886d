-- ===== src/Frames/Command.antt =====
-- src/frames.rs, `CommandFrame2011`: the commands that a client sends, and their bytes.
use pmu_data_analytics.Base.{ℕ, ◌++◌, Option, none, some}
use pmu_data_analytics.Base.Bytes.{Bytes, u16_bytes}
use pmu_data_analytics.Frames.Prefix
use pmu_data_analytics.Frames.Prefix.{PrefixFrame}
use pmu_data_analytics.Frames.Crc.{calculate_crc}

pub record CommandFrame : Type 0 where
  pub prefix : PrefixFrame
  pub command : ℕ
  pub extframe : Option Bytes
  pub chk : ℕ

unfoldable pub new_command : ℕ → ℕ → CommandFrame
new_command idcode command = record {
  prefix = record { sync = 0xaa41; framesize = 18; idcode = idcode; soc = 0; fracsec = 0 };
  command = command;
  extframe = none;
  chk = 0;
}

unfoldable pub new_turn_off_transmission : ℕ → CommandFrame
unfolding new_command
new_turn_off_transmission idcode = new_command idcode 1

unfoldable pub new_turn_on_transmission : ℕ → CommandFrame
unfolding new_command
new_turn_on_transmission idcode = new_command idcode 2

unfoldable pub new_send_header_frame : ℕ → CommandFrame
unfolding new_command
new_send_header_frame idcode = new_command idcode 3

unfoldable pub new_send_config_frame1 : ℕ → CommandFrame
unfolding new_command
new_send_config_frame1 idcode = new_command idcode 4

unfoldable pub new_send_config_frame2 : ℕ → CommandFrame
unfolding new_command
new_send_config_frame2 idcode = new_command idcode 5

unfoldable pub new_send_config_frame3 : ℕ → CommandFrame
unfolding new_command
new_send_config_frame3 idcode = new_command idcode 6

unfoldable pub new_extended_frame : ℕ → CommandFrame
unfolding new_command
new_extended_frame idcode = new_command idcode 8

-- `if let Some(extframe)`: the bytes that are appended, if any.
abbrev pub ext_bytes : Option Bytes → Bytes → Bytes
ext_bytes none result = result
ext_bytes (some ext) result = result ++ ext

-- Everything but the checksum.
unfoldable pub payload : CommandFrame → Bytes
payload c = ext_bytes c.extframe (Prefix.to_hex c.prefix ++ u16_bytes c.command)

-- The checksum is computed here; the field `chk` is not used.
unfoldable pub to_hex : CommandFrame → Bytes
unfolding payload
to_hex c = payload c ++ u16_bytes (calculate_crc (payload c))
