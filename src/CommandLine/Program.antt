-- ===== src/CommandLine/Program.antt =====
-- The program's client command against the mock server, up to the answers of the buffer server.
use Prim.Native.String.{String}
use native.Mathlib.Nat.{mul-le-mul_right}
use pmu_data_analytics.Base.{
  ℕ, ℤ, pos, negsuc, nat_abs, ◌*◌, ◌^◌, ◌≤◌, ◌<◌, ◌≡◌, refl, ap, subst, Bool, Outcome, ok, err,
  panic, List, All, Option, some, none, arith,
}
use pmu_data_analytics.Base.Bytes.{Bytes}
use pmu_data_analytics.Base.Words.{Build}
use pmu_data_analytics.Frames.Config.{ConfigurationFrame, calc_data_frame_size}
use pmu_data_analytics.Parser.Data.Layout.{IsI16}
use pmu_data_analytics.Parser.Config.Layout.{put_config_frame}
use pmu_data_analytics.Client.Connect.{Server}
use pmu_data_analytics.Client.Stream.{Event, Next, start_stream}
use pmu_data_analytics.Client.Runs.{InOrder, streaming_of}
use pmu_data_analytics.Client.Replies.{IsSealed}
use pmu_data_analytics.Client.Start.{total_frames}
use pmu_data_analytics.Client.{as_secs, entry_size}
use pmu_data_analytics.MockServer.{Files, ServerConfig, new_config}
use pmu_data_analytics.MockServer.Sessions.{IsRate}
use pmu_data_analytics.MockServer.Start.{mock_server, new-mock_server}
use pmu_data_analytics.BufferServer.{AppState}
use pmu_data_analytics.BufferServer.Library.{ArrowCrate, BatchLaws, WriterLaws}
use pmu_data_analytics.BufferServer.Settings.{Config, Environment, from_secs}
use pmu_data_analytics.BufferServer.Setup.{Service, set_up}
use pmu_data_analytics.BufferServer.Service.{IsAnswered, start_stream-IsAnswered}
use pmu_data_analytics.CommandLine.{Started, server, client, buffer_server, start}
use pmu_data_analytics.CommandLine.Start.{Parses, start-from_env}

nat_abs-le : (z : ℤ) → IsI16 z → nat_abs z ≤ 2 ^ 15
nat_abs-le (pos n) h = omega (arith, h)
nat_abs-le (negsuc n) h = omega (arith, h)

module _ (to_text : ℕ → String) (parse_u16 parse_u64 : String → Option ℕ) where
  abbrev rate_of : Outcome String Started → ℕ
  rate_of (ok (Started.mock_server config)) = config.data_rate
  rate_of (ok (buffer_server env)) = 0
  rate_of (err message) = 0
  rate_of panic = 0

  -- The data rate of the server's command.
  server-IsRate :
      (ip : String) (port : ℕ) (env : Environment) (config : ServerConfig)
      → start to_text (server ip port) env ≡ ok (Started.mock_server config)
      → IsRate config.data_rate
  unfolding start new_config
  server-IsRate ip port env config e = subst IsRate (ap rate_of e) (omega arith, omega arith)

  -- The heap of a buffer for at most 65535 seconds has a capacity.
  small_heap :
      (f : ConfigurationFrame) (duration : ℕ)
      → IsSealed f
      → duration < 2 ^ 16
      → entry_size * total_frames f (from_secs duration) < 2 ^ 63
  small_heap f duration sealed small =
      let rate : nat_abs f.data_rate ≤ 2 ^ 15 =
        nat_abs-le f.data_rate sealed.fields.data_rate_i16 in
      let secs : as_secs (from_secs duration) ≡ duration = omega arith in
      let frames : total_frames f (from_secs duration) ≤ 2 ^ 15 * duration =
        rw secs (mul-le-mul_right {m = nat_abs f.data_rate} {n = 2 ^ 15} duration rate) in
      omega (arith, frames, small)

  -- The client's command with 16-bit numbers, in an environment without an idcode, connected to the mock
  -- server of the server's command, whose file has a sealed configuration frame, where the buffer is
  -- to hold at least one frame and has a size of 64 bits, the request arrives whole in one read of
  -- the server, and its answer has arrived when the client reads it: the program sets up its service
  -- with that configuration, and then, whatever the events of the stream are, with a clock that does
  -- not go back, the stream does not panic and each buffer that it sends is answered with a table.
  pub start-IsAnswered :
      (arrow : ArrowCrate) (text : Bytes → String) (full_name : String → ℕ → String → String)
      (connect : String → ℕ → Option Server) (build : Build) (files : Files)
      (f : ConfigurationFrame) (ip : String) (pdc_port http_port duration now : ℕ)
      (env : Environment) (server_ip : String) (server_port : ℕ) (server_env : Environment)
      (config : ServerConfig) (on : Bool) (events : List Event)
      → BatchLaws arrow
      → WriterLaws arrow
      → Parses parse_u16 to_text 16
      → Parses parse_u64 to_text 64
      → to_text 1 ≡ "1"
      → env "PDC_IDCODE" ≡ none
      → pdc_port < 2 ^ 16
      → http_port < 2 ^ 16
      → duration < 2 ^ 16
      → start to_text (server server_ip server_port) server_env ≡ ok (Started.mock_server config)
      → connect ip pdc_port ≡ some (mock_server build files config)
      → IsSealed f
      → files.config_data ≡ some (put_config_frame f)
      → 0 < total_frames f (from_secs duration)
      → calc_data_frame_size f * total_frames f (from_secs duration) < 2 ^ 64
      → InOrder now events
      → (started : Environment) × (service : Service) × (next : Next) × (start to_text
            (client ip pdc_port http_port duration)
            env
          ≡ ok (buffer_server started))
        × (set_up parse_u16 parse_u64 connect build started ≡ ok service)
        × (service.state.config ≡ f)
        × (start_stream on events service.client ≡ ok next)
        × All (IsAnswered arrow text full_name service.state) (streaming_of next).outputs
  unfolding set_up
  start-IsAnswered arrow text full_name connect build files f ip pdc_port http_port duration now env
        server_ip server_port server_env config on events batch_laws writer_laws u16 u64 one unset
        small_pdc small_http small serving connected sealed file some_frames fits order =
      let (started, e₁, e₂) =
        start-from_env to_text parse_u16 parse_u64 ip pdc_port http_port duration env u16 u64 one
          unset small_pdc small_http small in
      let settings : Config = record {
        pdc_host = ip;
        pdc_port = pdc_port;
        pdc_idcode = 1;
        buffer_duration = from_secs duration;
        server_port = http_port;
      } in
      let (c, e₃, ready, configured, size, idcode) =
        new-mock_server build files config f now 1 (from_secs duration) (omega arith)
          (server-IsRate server_ip server_port server_env config serving) sealed file some_frames
          fits (small_heap f duration sealed small) in
      let state : AppState = record { config = f; frame_size = c.frame_size } in
      let (next, e₄, answered) =
        start_stream-IsAnswered arrow text full_name state c now on events batch_laws writer_laws
          size refl ready order in
      (
        started,
        record { settings = settings; client = c; state = state },
        next,
        e₁,
        rw (e₂, connected, e₃, configured) refl,
        refl,
        e₄,
        answered,
      )
