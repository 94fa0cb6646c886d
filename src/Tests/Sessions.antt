-- ===== src/Tests/Sessions.antt =====
-- A session of the mock server with one client, and the client that starts from it.
use pmu_data_analytics.Base.{
  ℕ, ◌*◌, ◌^◌, ◌<◌, ◌≡◌, refl, inl, true, ok, panic, List, [], ◌∷◌, ◌++◌, map, some, arith,
}
use pmu_data_analytics.Base.Words.{debug, release}
use pmu_data_analytics.Frames.Prefix
use pmu_data_analytics.Frames.Prefix.{PrefixFrame}
use pmu_data_analytics.Frames.Config.{
  calc_data_frame_size, pmu_data_size, phasor_size, freq_dfreq_size, analog_size,
}
use pmu_data_analytics.Parser.Config.Layout.{put_config_frame}
use pmu_data_analytics.Client.{PdcClient}
use pmu_data_analytics.Client.Connect.{Server, new}
use pmu_data_analytics.Client.Ready.{IsReady}
use pmu_data_analytics.Client.Replies.{config_reply, IsSealed}
use pmu_data_analytics.Client.Start.{total_frames, new-IsReady, new-short}
use pmu_data_analytics.MockServer.{tcp, ServerConfig, Files, received, next, handle_client}
use pmu_data_analytics.MockServer.Sessions.{
  Request, turn_on, turn_off, send_config1, interval, event_of, behind, answers, session_at,
  handle_client-answers,
}
use pmu_data_analytics.MockServer.Malformed.{handle_client-panics}
use pmu_data_analytics.Tests.Streams.{stream, stream-IsConfig}

abbrev pub files : Files
files = record { config_data = some (put_config_frame stream); data_frame = some (7 ∷ []) }

-- The interval before the transmission is on and the one behind it send nothing.
abbrev requests : List Request
requests = interval ∷ send_config1 ∷ turn_on ∷ interval ∷ interval ∷ turn_off ∷ interval ∷ []

-- 30.0 as a double.
abbrev pub mock_config : ServerConfig
mock_config = record {
  ip = "127.0.0.1";
  port = 8123;
  protocol = tcp;
  address = "127.0.0.1:8123";
  data_rate = 0x403e000000000000;
}

handle_client-answers_example :
    handle_client debug files mock_config (map (event_of 7660) requests)
    ≡ ok (next (session_at (behind [] requests) (answers files [] requests)))
handle_client-answers_example =
    handle_client-answers debug files 7660 (omega arith) mock_config requests
      (omega arith, omega arith)

three_answers : answers files [] requests ≡ put_config_frame stream ∷ (7 ∷ []) ∷ (7 ∷ []) ∷ []
three_answers = refl

handle_client-panics_example :
    handle_client release files mock_config
      (map (event_of 7660) requests ++ (received (170 ∷ []) true ∷ []))
    ≡ panic
handle_client-panics_example =
    handle_client-panics release files mock_config 7660 requests (170 ∷ []) true (omega arith)
      (inl (170, refl))

pub stream-IsSealed : IsSealed stream
stream-IsSealed = record { fields = stream-IsConfig; sized = refl; checked = refl }

-- Ten seconds, in nanoseconds.
abbrev ten_seconds : ℕ
ten_seconds = 10000000000

abbrev one_answer : Server
one_answer request = some (config_reply stream)

stream-fits : calc_data_frame_size stream * total_frames stream ten_seconds < 2 ^ 64
unfolding calc_data_frame_size pmu_data_size phasor_size freq_dfreq_size analog_size
stream-fits = omega arith

new-IsReady_example :
    (client : PdcClient) × (new debug (some one_answer) 7660 ten_seconds ≡ ok client)
    × IsReady 5 client
    × (client.config ≡ some stream)
    × (client.frame_size ≡ calc_data_frame_size stream)
    × (client.idcode ≡ 7660)
new-IsReady_example =
    new-IsReady debug one_answer stream 5 7660 ten_seconds stream-IsSealed refl (omega arith)
      stream-fits (omega arith)

-- Half of the frame is still on its way.
abbrev half_answer : Server
half_answer request =
    some
      (record { header = some (Prefix.to_hex stream.prefix); arrived = λ capacity. 1 ∷ 2 ∷ 3 ∷ [] })

new-short_example : new release (some half_answer) 7660 ten_seconds ≡ panic
new-short_example =
    new-short release half_answer stream.prefix (λ capacity. 1 ∷ 2 ∷ 3 ∷ []) 7660 ten_seconds
      stream-IsConfig.prefix_fits refl (omega arith)
