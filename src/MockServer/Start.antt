-- ===== src/MockServer/Start.antt =====
-- The client of src/pdc_client.rs connected to this server.
use pmu_data_analytics.Base.{
  ℕ, ◌*◌, ◌^◌, ◌<◌, ◌≡◌, sym, ap, ap₂, ◌∙◌, true, Run, ok, err, panic, List, [], ◌∷◌, ◌++◌,
  append_assoc, take, drop, take-append_length, drop-append_length, Option, some, none,
}
use pmu_data_analytics.Base.Bytes.{Bytes, u16_bytes}
use pmu_data_analytics.Base.Words.{Build}
use pmu_data_analytics.Frames.Prefix as Prefix
use pmu_data_analytics.Frames.Prefix.RoundTrip.{length-to_hex}
use pmu_data_analytics.Frames.Config.{ConfigurationFrame, calc_data_frame_size}
use pmu_data_analytics.Parser.Config.Layout.{put_config_frame}
use pmu_data_analytics.Parser.Dispatch.Streams.{config_fields, config_body-put}
use pmu_data_analytics.Client.{PdcClient, entry_size}
use pmu_data_analytics.Client.Connect.{Reply, Server, new}
use pmu_data_analytics.Client.Ready.{IsReady}
use pmu_data_analytics.Client.Replies.{config_request, config_reply, IsSealed}
use pmu_data_analytics.Client.Start.{total_frames, new-IsReady}
use pmu_data_analytics.MockServer.{
  Files, ServerConfig, received, Round, next, disconnected, failed, handle_client,
}
use pmu_data_analytics.MockServer.Sessions.{IsRate, send_config1, handle_client-answers}

-- What the client reads of the bytes that the server has sent: the first 14, and the others.
abbrev pub reply_of : List Bytes → Reply
reply_of [] = record { header = none; arrived = λ capacity. [] }
reply_of (bytes ∷ later) = record {
  header = some (take 14 bytes);
  arrived = λ capacity. take capacity (drop 14 bytes);
}

abbrev pub session_reply : Run Round → Option Reply
session_reply (ok (next s)) = some (reply_of s.sent)
session_reply (ok (disconnected s)) = some (reply_of s.sent)
session_reply (ok (failed s)) = some (reply_of s.sent)
session_reply (err e) = absurd e
session_reply panic = none

-- A new session that receives the request, with all that it writes arrived at once.
abbrev pub mock_server : Build → Files → ServerConfig → Server
mock_server build files config request =
    session_reply (handle_client build files config (received request true ∷ []))

file-reply : (f : ConfigurationFrame) → reply_of (put_config_frame f ∷ []) ≡ config_reply f
file-reply f =
    let header : Bytes = Prefix.to_hex f.prefix in
    let rest : Bytes = config_fields f ++ u16_bytes f.chk in
    let split : put_config_frame f ≡ header ++ rest =
      sym (config_body-put f) ∙ append_assoc header (config_fields f) (u16_bytes f.chk) in
    ap₂
      (λ (first : Bytes) (second : Bytes). record {
        header = some first;
        arrived = λ capacity. take capacity second;
      })
      (ap (take 14) split
        ∙ ap (λ n. take n (header ++ rest)) (sym (length-to_hex f.prefix))
        ∙ take-append_length header rest)
      (ap (drop 14) split
        ∙ ap (λ n. drop n (header ++ rest)) (sym (length-to_hex f.prefix))
        ∙ drop-append_length header rest)

mock_server-config :
    (build : Build) (files : Files) (config : ServerConfig) (f : ConfigurationFrame) (idcode : ℕ)
    → idcode < 2 ^ 16
    → IsRate config.data_rate
    → files.config_data ≡ some (put_config_frame f)
    → mock_server build files config (config_request idcode) ≡ some (config_reply f)
mock_server-config build files config f idcode small rate file =
    ap session_reply
      (handle_client-answers build files idcode small config (send_config1 ∷ []) rate)
    ∙ rw file (ap some (file-reply f))

-- The mock server, with a data rate above 2^-64, has a file with a configuration frame, sealed with its
-- size and its checksum. A client with a 16-bit idcode whose buffer is to hold at least one frame, has
-- a size of 64 bits, and has entries of 40 bytes each below 2^63 bytes starts from it without a panic,
-- if its request arrives whole in one read of the server and the server's answer has arrived when the
-- client reads the rest of the frame: it then has that configuration and can store its data frames.
pub new-mock_server :
    (build : Build) (files : Files) (config : ServerConfig) (f : ConfigurationFrame)
    (now idcode duration : ℕ)
    → idcode < 2 ^ 16
    → IsRate config.data_rate
    → IsSealed f
    → files.config_data ≡ some (put_config_frame f)
    → 0 < total_frames f duration
    → calc_data_frame_size f * total_frames f duration < 2 ^ 64
    → entry_size * total_frames f duration < 2 ^ 63
    → (client : PdcClient) × (new build (some (mock_server build files config)) idcode duration
        ≡ ok client)
      × IsReady now client
      × (client.config ≡ some f)
      × (client.frame_size ≡ calc_data_frame_size f)
      × (client.idcode ≡ idcode)
new-mock_server build files config f now idcode duration small rate sealed file some_frames fits
      room =
    new-IsReady build (mock_server build files config) f now idcode duration sealed
      (mock_server-config build files config f idcode small rate file) some_frames fits room
