-- ===== src/Tests/Program.antt =====
-- The program's client command with the mock server of Tests/Sessions, where a number is written as that
-- many ones.
use Prim.Native.String.{String}
use Prim.Native.String as Text
use pmu_data_analytics.Base.{
  ℕ, zero, suc, ◌*◌, ◌^◌, ◌<◌, ◌≡◌, refl, ap, true, ok, All, Option, some, none, arith,
}
use pmu_data_analytics.Base.Words.{debug}
use pmu_data_analytics.Frames.Config.{
  calc_data_frame_size, pmu_data_size, phasor_size, freq_dfreq_size, analog_size,
}
use pmu_data_analytics.Client.Connect.{Server}
use pmu_data_analytics.Client.Stream.{Next, start_stream}
use pmu_data_analytics.Client.Runs.{streaming_of}
use pmu_data_analytics.Client.Start.{total_frames}
use pmu_data_analytics.MockServer.Start.{mock_server}
use pmu_data_analytics.BufferServer.Settings.{Environment, from_secs, from_env}
use pmu_data_analytics.BufferServer.Setup.{Service, set_up}
use pmu_data_analytics.BufferServer.Service.{IsAnswered}
use pmu_data_analytics.CommandLine
use pmu_data_analytics.CommandLine.{server, client, buffer_server, thirty, start}
use pmu_data_analytics.MockServer.{tcp, ServerConfig, new_config}
use pmu_data_analytics.CommandLine.Start.{Parses, start-from_env}
use pmu_data_analytics.CommandLine.Program.{start-IsAnswered}
use pmu_data_analytics.Tests.Streams.{stream}
use pmu_data_analytics.Tests.Sessions.{files, stream-IsSealed}
use pmu_data_analytics.Tests.Loops.{events, events-InOrder}
use pmu_data_analytics.Tests.Tables.{
  small_crate, small_crate-BatchLaws, small_crate-WriterLaws, no_text, channel_text,
}

abbrev tally : ℕ → String
tally zero = ""
tally (suc n) = Text.String.◌∷◌ "1" (tally n)

abbrev count : String → ℕ
count Text.String.[] = 0
count (Text.String.◌∷◌ c rest) = suc (count rest)

abbrev parse : String → Option ℕ
parse digits = some (count digits)

count-tally : (n : ℕ) → count (tally n) ≡ n
count-tally zero = refl
count-tally (suc n) = ap suc (count-tally n)

parse-tally : (width : ℕ) → Parses parse tally width
parse-tally width n small = ap some (count-tally n)

abbrev nothing_set : Environment
nothing_set name = none

start-from_env_example :
    (started : Environment) × (start tally (client "10.0.0.1" 81 80 10) nothing_set
      ≡ ok (buffer_server started))
    × (from_env parse parse started
        ≡ ok (record {
          pdc_host = "10.0.0.1";
          pdc_port = 81;
          pdc_idcode = 1;
          buffer_duration = from_secs 10;
          server_port = 80;
        }))
start-from_env_example =
    start-from_env tally parse parse "10.0.0.1" 81 80 10 nothing_set (parse-tally 16)
      (parse-tally 64) refl refl (omega arith) (omega arith) (omega arith)

-- What the program's server command starts.
abbrev started_config : ServerConfig
started_config = record {
  ip = "10.0.0.1";
  port = 1;
  protocol = tcp;
  address = "10.0.0.1:1";
  data_rate = thirty;
}

serving :
    start tally (server "10.0.0.1" 1) nothing_set ≡ ok (CommandLine.mock_server started_config)
unfolding start new_config
serving = refl

abbrev connect : String → ℕ → Option Server
connect host port = some (mock_server debug files started_config)

stream-fits : calc_data_frame_size stream * total_frames stream (from_secs 10) < 2 ^ 64
unfolding calc_data_frame_size pmu_data_size phasor_size freq_dfreq_size analog_size
stream-fits = omega arith

start-IsAnswered_example :
    (started : Environment) × (service : Service) × (next : Next) × (start tally
        (client "10.0.0.1" 81 80 10)
        nothing_set
      ≡ ok (buffer_server started))
    × (set_up parse parse connect debug started ≡ ok service)
    × (service.state.config ≡ stream)
    × (start_stream true events service.client ≡ ok next)
    × All (IsAnswered small_crate no_text channel_text service.state) (streaming_of next).outputs
start-IsAnswered_example =
    start-IsAnswered tally parse parse small_crate no_text channel_text connect debug files stream
      "10.0.0.1" 81 80 10 0 nothing_set "10.0.0.1" 1 nothing_set started_config true events
      small_crate-BatchLaws small_crate-WriterLaws (parse-tally 16) (parse-tally 64) refl refl
      (omega arith) (omega arith) (omega arith) serving refl stream-IsSealed refl (omega arith)
      stream-fits events-InOrder
