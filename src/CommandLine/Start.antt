-- ===== src/CommandLine/Start.antt =====
-- From the command line to the client's answers.
use Prim.Native.String.{String}
use pmu_data_analytics.Base.{ℕ, ◌^◌, ◌<◌, ◌≡◌, refl, sym, ap, ◌∙◌, ok, Option, some, none, arith}
use pmu_data_analytics.BufferServer.Settings.{Environment, from_secs, from_env}
use pmu_data_analytics.CommandLine.{client, buffer_server, client_environment, start}

-- As documented: a number that fits is parsed from its decimal text.
abbrev pub Parses : (String → Option ℕ) → (ℕ → String) → ℕ → Type 0
Parses parse to_text width = (n : ℕ) → n < 2 ^ width → parse (to_text n) ≡ some n

module _ (to_text : ℕ → String) (parse_u16 parse_u64 : String → Option ℕ) where
  -- The client's command with 16-bit numbers, in an environment without an idcode, starts the buffer
  -- server with the settings that the command names and the default idcode 1.
  pub start-from_env :
      (ip : String) (pdc_port http_port duration : ℕ) (env : Environment)
      → Parses parse_u16 to_text 16
      → Parses parse_u64 to_text 64
      → to_text 1 ≡ "1"
      → env "PDC_IDCODE" ≡ none
      → pdc_port < 2 ^ 16
      → http_port < 2 ^ 16
      → duration < 2 ^ 16
      → (started : Environment) × (start to_text (client ip pdc_port http_port duration) env
          ≡ ok (buffer_server started))
        × (from_env parse_u16 parse_u64 started
            ≡ ok (record {
              pdc_host = ip;
              pdc_port = pdc_port;
              pdc_idcode = 1;
              buffer_duration = from_secs duration;
              server_port = http_port;
            }))
  unfolding start from_env client_environment
  start-from_env ip pdc_port http_port duration env u16 u64 one unset small_pdc small_http small = (
    client_environment to_text ip pdc_port http_port duration env,
    refl,
    rw
        (
          u16 pdc_port small_pdc,
          unset,
          ap parse_u16 (sym one) ∙ u16 1 (omega arith),
          u64 duration (omega (arith, small)),
          u16 http_port small_http,
        )
        refl,
  )
