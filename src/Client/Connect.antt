-- ===== src/Client/Connect.antt =====
-- src/pdc_client.rs, `get_config_frame` and `new`: the client asks for the configuration. The server at
-- the other end of the socket is a function from the bytes of a request.
use pmu_data_analytics.Base.{
  ℕ, ◌-◌, ◌%◌, Outcome, ok, err, panic, ◌>>=◌, ensure, ltb, ◌==◌, if◌then◌else◌, ◌++◌, length,
  replicate, Option, none, some, Run,
}
use pmu_data_analytics.Base.Bytes.{Bytes, slice, u16_at}
use pmu_data_analytics.Base.Words.{Build}
use pmu_data_analytics.Frames.Crc.{calculate_crc}
use pmu_data_analytics.Frames.Prefix.{PrefixFrame, from_hex}
use pmu_data_analytics.Frames.Command.{new_send_config_frame1}
use pmu_data_analytics.Frames.Command as Command
use pmu_data_analytics.Frames.Config.{ConfigurationFrame, calc_data_frame_size}
use pmu_data_analytics.Parser.Config.{parse_config_frame_1and2}
use pmu_data_analytics.Client.{stack, PdcClient, stack_size, initialize_buffer}

-- The kinds of `io::Error` that the client makes, and those of the socket.
pub data IoError : Type 0 where
  connection_refused invalid_data connection_aborted socket_error : IoError

abbrev pub Io : Type 0 → Type 0
Io A = Outcome IoError A

-- What `read_exact` gives for the first 14 bytes, and what `try_read_buf` then reads into a buffer of
-- a capacity.
pub record Reply : Type 0 where
  pub header : Option Bytes
  pub arrived : (capacity : ℕ) → Bytes

-- The answer to a request; `none` if the request cannot be written.
abbrev pub Server : Type 0
Server = Bytes → Option Reply

abbrev pub or_socket_error : {A : Type 0} → Option A → Io A
or_socket_error none = err socket_error
or_socket_error (some a) = ok a

-- A result whose every error is `InvalidData`.
abbrev pub or_invalid_data : {E A : Type 0} → Outcome E A → Io A
or_invalid_data (ok a) = ok a
or_invalid_data (err e) = err invalid_data
or_invalid_data panic = panic

-- `prefix.framesize as usize - 14`, the capacity of the buffer: below 14 the subtraction panics in a
-- debug build, and the capacity does in a release build.
abbrev pub remaining_size : PrefixFrame → Io ℕ
remaining_size prefix = if ltb prefix.framesize 14 then panic else ok (prefix.framesize - 14)

-- `30 * 1024 - ((30 * 1024) % frame_size)`
abbrev pub whole_frames : ℕ → ℕ
whole_frames size = stack_size - stack_size % size

-- The frame is complete: its checksum, and its parts.
unfoldable pub read_config :
    Build → PrefixFrame → Bytes → PdcClient → Io (ConfigurationFrame × PdcClient)
read_config build prefix complete_frame client = do
  body ← slice complete_frame 0 (length complete_frame - 2)
  frame_crc ← u16_at complete_frame (prefix.framesize - 2)
  _ ← ensure (calculate_crc body == frame_crc) invalid_data
  config ← or_invalid_data (parse_config_frame_1and2 build complete_frame)
  ok (
    config,
    record client {
      frame_size = calc_data_frame_size config;
      max_buffer_size = whole_frames (calc_data_frame_size config);
    },
  )

unfoldable pub get_config_frame : Build → Server → PdcClient → Io (ConfigurationFrame × PdcClient)
unfolding read_config
get_config_frame build server client = do
  reply ← or_socket_error (server (Command.to_hex (new_send_config_frame1 client.idcode)))
  header_buf ← or_socket_error reply.header
  prefix ← or_invalid_data (from_hex header_buf)
  capacity ← remaining_size prefix
  read_config build prefix (header_buf ++ reply.arrived capacity) client

-- The client before it has a configuration.
abbrev pub blank_client : ℕ → ℕ → PdcClient
blank_client idcode duration = record {
  buffer = stack (replicate stack_size 0);
  duration = duration;
  max_buffer_size = whole_frames 52;
  frame_size = 0;
  write_offset = 0;
  idcode = idcode;
  config = none;
}

-- `unwrap` of a result.
abbrev pub expect_ok : {A : Type 0} → Io A → Io A
expect_ok (ok a) = ok a
expect_ok (err e) = panic
expect_ok panic = panic

abbrev pub never_fails : {A : Type 0} → Run A → Io A
never_fails (ok a) = ok a
never_fails (err e) = absurd e
never_fails panic = panic

-- `connection` is what `TcpStream::connect` gives.
unfoldable pub new : Build → Option Server → ℕ → ℕ → Io PdcClient
unfolding get_config_frame initialize_buffer
new build none idcode duration = err connection_refused
new build (some server) idcode duration = do
  configured ← expect_ok (get_config_frame build server (blank_client idcode duration))
  never_fails (initialize_buffer build (record configured.1 { config = some configured.0 }))
