-- ===== src/MockServer.antt =====
-- src/pdc_server.rs: the server that plays a data concentrator for tests. What the socket reads, how
-- its writes end and when the timer runs out are the events of a session; the files are the results of
-- `fs::read_to_string`. The length of the interval only says when the timer's events come, so that of
-- it the model keeps whether the source can compute it.
pub mod Commands
pub mod Sessions
pub mod Malformed
pub mod Start
use Prim.Native.String.{String}
use Prim.Native.String as Text
use pmu_data_analytics.Base.{
  ℕ, ◌+◌, ◌*◌, ◌^◌, Bool, true, false, ltb, leb, ◌&&◌, ◌||◌, ◌==◌, not, if◌then◌else◌, Outcome, Run,
  ok, err, panic, ◌>>=◌, List, [], ◌∷◌, ◌++◌, Option, none, some,
}
use pmu_data_analytics.Base.Bytes.{Bytes}
use pmu_data_analytics.Base.Words.{Build}
use pmu_data_analytics.Frames.Command.{CommandFrame}
use pmu_data_analytics.Parser.Errors.{Parse, ParseError, Frame}
use pmu_data_analytics.Parser.Dispatch.{parse_frame}

pub data Protocol : Type 0 where
  tcp udp : Protocol

-- The data rate, a double, is its bit pattern.
pub record ServerConfig : Type 0 where
  pub ip : String
  pub port : ℕ
  pub protocol : Protocol
  pub address : String
  pub data_rate : ℕ

-- `to_text` writes a port in decimal.
unfoldable pub new_config : (ℕ → String) → String → ℕ → Protocol → ℕ → Outcome String ServerConfig
new_config to_text ip port udp data_rate = err "UDP is not implemented"
new_config to_text ip port tcp data_rate = ok (record {
  ip = ip;
  port = port;
  protocol = tcp;
  address = Text.◌++◌ ip (Text.◌++◌ ":" (to_text port));
  data_rate = data_rate;
})

-- Characters with `is_whitespace`, and `from_str_radix(.., 16)` of two of them.
module _ {C : Type 0} (is_whitespace : C → Bool) (hex_pair : C → C → Option ℕ) where
  unfoldable pub without_whitespace : List C → List C
  without_whitespace [] = []
  without_whitespace (c ∷ cs) =
      let rest = without_whitespace cs in if is_whitespace c then rest else c ∷ rest

  abbrev pub put_byte : Option ℕ → Option Bytes → Option Bytes
  put_byte none rest = none
  put_byte (some byte) none = none
  put_byte (some byte) (some bytes) = some (byte ∷ bytes)

  -- A last character without a partner is dropped.
  unfoldable pub hex_bytes : List C → Option Bytes
  hex_bytes [] = some []
  hex_bytes (a ∷ []) = some []
  hex_bytes (a ∷ b ∷ rest) = put_byte (hex_pair a b) (hex_bytes rest)

  -- `content` is the text of the file, if it can be read.
  unfoldable pub read_test_file : Option (List C) → Option Bytes
  unfolding without_whitespace hex_bytes
  read_test_file none = none
  read_test_file (some content) = hex_bytes (without_whitespace content)

-- `config_message.bin` and `data_message.bin`, as `read_test_file` reads them.
pub record Files : Type 0 where
  pub config_data : Option Bytes
  pub data_frame : Option Bytes

-- A branch of `tokio::select!`: a read, or the end of the interval. `written` says whether the write
-- that this leads to, if any, succeeds.
pub data SessionEvent : Type 0 where
  received : Bytes → (written : Bool) → SessionEvent
  read_failed : SessionEvent
  tick : (written : Bool) → SessionEvent

pub record Session : Type 0 where
  pub is_streaming : Bool
  pub sent : List Bytes

-- Another round, the end of the handler, or its end with an error.
pub data Round : Type 0 where
  next disconnected failed : Session → Round

abbrev pub send : Bytes → Session → Session
send bytes s = record s { sent = s.sent ++ (bytes ∷ []) }

-- `socket.write_all(&config_data).await?`
abbrev pub write_config : Option Bytes → Bool → Session → Round
write_config none written s = next s
write_config (some config_data) written s = if written then next (send config_data s) else failed s

-- `match cmd.command`
unfoldable pub handle_command : Files → ℕ → Bool → Session → Round
handle_command files command written s =
    if command == 4
    then write_config files.config_data written s
    else (if command == 2
        then next (record s { is_streaming = true })
        else (if command == 1 then next (record s { is_streaming = false }) else next s))

-- `if let Ok(frame) = parse_frame(..)`, and the frame that it gives.
abbrev pub handle_frame : Files → Bool → Session → Parse Frame → Run Round
handle_frame files written s (ok (Frame.command cmd)) =
    ok (handle_command files cmd.command written s)
handle_frame files written s (ok (Frame.header frame)) = ok (next s)
handle_frame files written s (ok (Frame.prefix frame)) = ok (next s)
handle_frame files written s (ok (Frame.configuration frame)) = ok (next s)
handle_frame files written s (ok (Frame.data_frame frame)) = ok (next s)
handle_frame files written s (err e) = ok (next s)
handle_frame files written s panic = panic

abbrev pub write_data : Option Bytes → Bool → Session → Round
write_data none written s = next s
write_data (some data_frame) written s =
    if written then next (send data_frame s) else disconnected s

-- One round; the timer's branch is there only while streaming. A read of nothing is the end of the
-- connection.
unfoldable pub handle_event : Build → Files → SessionEvent → Session → Run Round
unfolding handle_command
handle_event build files (received [] written) s = ok (disconnected s)
handle_event build files (received (b ∷ bytes) written) s =
    handle_frame files written s (parse_frame build (b ∷ bytes) none)
handle_event build files read_failed s = ok (disconnected s)
handle_event build files (tick written) s =
    ok (if s.is_streaming then write_data files.data_frame written s else next s)

-- The loop of `handle_client`, over the events so far.
unfoldable pub run_session : Build → Files → List SessionEvent → Round → Run Round
unfolding handle_event
run_session build files [] round = ok round
run_session build files (event ∷ events) (disconnected s) = ok (disconnected s)
run_session build files (event ∷ events) (failed s) = ok (failed s)
run_session build files (event ∷ events) (next s) = do
  round ← handle_event build files event s
  run_session build files events round

abbrev pub new_session : Session
new_session = record { is_streaming = false; sent = [] }

-- The bits of 2^-64, of the two infinities and of the values between, by their order: the bits of a
-- positive double grow with it.
abbrev pub smallest_rate : ℕ
smallest_rate = 959 * 2 ^ 52

abbrev pub positive_infinity : ℕ
positive_infinity = 2047 * 2 ^ 52

abbrev pub negative_infinity : ℕ
negative_infinity = 4095 * 2 ^ 52

-- `Duration::from_secs_f64(1.0 / data_rate)` panics if the quotient is negative, not a number, or 2^64
-- seconds or more. The quotient is within the bounds for a positive rate above 2^-64 (0.0 for
-- infinity), and it is -0.0, which is not negative, for the other infinity.
abbrev pub has_interval : ℕ → Bool
has_interval data_rate =
    (ltb smallest_rate data_rate && leb data_rate positive_infinity)
    || (data_rate == negative_infinity)

unfoldable pub stream_interval : ℕ → Run Unit
stream_interval data_rate = if has_interval data_rate then ok tt else panic

unfoldable pub handle_client : Build → Files → ServerConfig → List SessionEvent → Run Round
unfolding run_session stream_interval
handle_client build files config events = do
  _ ← stream_interval config.data_rate
  run_session build files events (next new_session)
