-- ===== src/BufferServer/Setup.antt =====
-- src/pdc_buffer_server.rs, `run`, up to the state of the router.
use Prim.Native.String.{String}
use pmu_data_analytics.Base.{ℕ, Outcome, ok, err, panic, ◌>>=◌, Option, none, some}
use pmu_data_analytics.Base.Words.{Build}
use pmu_data_analytics.Frames.Config.{ConfigurationFrame}
use pmu_data_analytics.Client.{PdcClient, get_config}
use pmu_data_analytics.Client.Connect.{Io, Server, new}
use pmu_data_analytics.BufferServer.{AppState}
use pmu_data_analytics.BufferServer.Settings.{Config, Environment, from_env}

-- `run` returns the error of the settings; without a client the process exits.
pub data SetupError : Type 0 where
  invalid_settings : String → SetupError
  process_exit : SetupError

abbrev pub with_settings : {A : Type 0} → Outcome String A → Outcome SetupError A
with_settings (ok a) = ok a
with_settings (err message) = err (invalid_settings message)
with_settings panic = panic

abbrev pub or_exit : {A : Type 0} → Io A → Outcome SetupError A
or_exit (ok a) = ok a
or_exit (err e) = err process_exit
or_exit panic = panic

-- `get_config().expect(..)`
abbrev pub expect_config : Option ConfigurationFrame → Outcome SetupError ConfigurationFrame
expect_config none = panic
expect_config (some config) = ok config

-- What the server has before it listens: the settings, the client and the state of its handlers.
pub record Service : Type 0 where
  pub settings : Config
  pub client : PdcClient
  pub state : AppState

-- `connect` gives the server at a host and a port, if there is one.
module _ (parse_u16 parse_u64 : String → Option ℕ) (connect : String → ℕ → Option Server) where
  unfoldable pub set_up : Build → Environment → Outcome SetupError Service
  set_up build env = do
    config ← with_settings (from_env parse_u16 parse_u64 env)
    client ← or_exit (
        new build (connect config.pdc_host config.pdc_port) config.pdc_idcode
          config.buffer_duration)
    pdc_config ← expect_config (get_config client)
    ok (record {
      settings = config;
      client = client;
      state = record { config = pdc_config; frame_size = client.frame_size };
    })
