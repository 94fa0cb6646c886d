-- ===== src/BufferServer/Settings.antt =====
-- src/pdc_buffer_server.rs, `Config::from_env`: the settings in the environment's variables. The
-- parsers of numbers are parameters.
use Prim.Native.String.{String}
use text.Mathlib.Text.{◌==◌}
use pmu_data_analytics.Base.{
  ℕ, ◌*◌, ◌^◌, Outcome, ok, err, ◌>>=◌, if◌then◌else◌, Option, none, some,
}

-- `buffer_duration` is in nanoseconds, as everywhere.
pub record Config : Type 0 where
  pub pdc_host : String
  pub pdc_port : ℕ
  pub pdc_idcode : ℕ
  pub buffer_duration : ℕ
  pub server_port : ℕ

-- The value of a variable, if it is set.
abbrev pub Environment : Type 0
Environment = String → Option String

-- `unwrap_or_else`
abbrev pub value_or : String → Option String → String
value_or default none = default
value_or default (some value) = value

-- `map_err(|_| ..)`
abbrev pub or_message : String → Option ℕ → Outcome String ℕ
or_message message none = err message
or_message message (some n) = ok n

-- `Duration::from_secs`
abbrev pub from_secs : ℕ → ℕ
from_secs secs = secs * 10 ^ 9

-- `set_var`
abbrev pub set_var : String → String → Environment → Environment
set_var name value env key = if name == key then some value else env key

module _ (parse_u16 parse_u64 : String → Option ℕ) where
  unfoldable pub from_env : Environment → Outcome String Config
  from_env env = do
    pdc_port ← or_message "Invalid PDC_PORT" (parse_u16 (value_or "8123" (env "PDC_PORT")))
    pdc_idcode ← or_message "Invalid PDC_IDCODE" (parse_u16 (value_or "1" (env "PDC_IDCODE")))
    secs ←
        or_message "Invalid BUFFER_DURATION_SECS"
          (parse_u64 (value_or "120" (env "BUFFER_DURATION_SECS")))
    server_port ← or_message "Invalid SERVER_PORT" (parse_u16 (value_or "8080" (env "SERVER_PORT")))
    ok (record {
      pdc_host = value_or "localhost" (env "PDC_HOST");
      pdc_port = pdc_port;
      pdc_idcode = pdc_idcode;
      buffer_duration = from_secs secs;
      server_port = server_port;
    })
