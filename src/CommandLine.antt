-- ===== src/CommandLine.antt =====
-- src/main.rs: the two commands of the program. `to_text` writes a number in decimal.
pub mod Start
pub mod Program
use Prim.Native.String.{String}
use pmu_data_analytics.Base.{ℕ, Outcome, ok, err, panic, ◌>>=◌}
use pmu_data_analytics.BufferServer.Settings.{Environment, set_var}
use pmu_data_analytics.MockServer.{Protocol, tcp, ServerConfig, new_config}

pub data Commands : Type 0 where
  server : (ip : String) (port : ℕ) → Commands
  client : (ip : String) (pdc_port http_port duration : ℕ) → Commands

-- What the program then runs: the mock server, or the buffer server in an environment.
pub data Started : Type 0 where
  mock_server : ServerConfig → Started
  buffer_server : Environment → Started

-- 30.0 as a double.
abbrev pub thirty : ℕ
thirty = 0x403e000000000000

-- `unwrap`
abbrev pub unwrap_config : Outcome String ServerConfig → Outcome String Started
unwrap_config (ok config) = ok (mock_server config)
unwrap_config (err message) = panic
unwrap_config panic = panic

module _ (to_text : ℕ → String) where
  -- The four calls of `set_var`.
  unfoldable pub client_environment : String → ℕ → ℕ → ℕ → Environment → Environment
  client_environment ip pdc_port http_port duration env =
      set_var "BUFFER_DURATION_SECS" (to_text duration) (
        set_var "SERVER_PORT" (to_text http_port)
          (set_var "PDC_PORT" (to_text pdc_port) (set_var "PDC_HOST" ip env)))

  -- `match args.command`
  unfoldable pub start : Commands → Environment → Outcome String Started
  unfolding client_environment
  start (server ip port) env = unwrap_config (new_config to_text ip port tcp thirty)
  start (client ip pdc_port http_port duration) env =
      ok (buffer_server (client_environment ip pdc_port http_port duration env))
