-- ===== src/Client/Replies.antt =====
-- The configuration that the client reads from a reply of the server.
use pmu_data_analytics.Base.{
  ℕ, ◌+◌, ◌-◌, ◌^◌, ◌<◌, ◌≡◌, refl, sym, ap, ◌∙◌, ok, le→ltb, eq→==, ◌++◌, append_assoc, length,
  length-append, take, take_all, some, arith,
}
use pmu_data_analytics.Base.Bytes.{Bytes, u16_bytes}
use pmu_data_analytics.Base.Words.{Build}
use pmu_data_analytics.Frames.Crc.{calculate_crc}
use pmu_data_analytics.Frames.Prefix.{PrefixFrame, IsPrefix}
use pmu_data_analytics.Frames.Prefix as Prefix
use pmu_data_analytics.Frames.Prefix.RoundTrip.{from_hex-to_hex, length-to_hex}
use pmu_data_analytics.Frames.Command.{new_send_config_frame1}
use pmu_data_analytics.Frames.Command as Command
use pmu_data_analytics.Frames.Config.{ConfigurationFrame, calc_data_frame_size}
use pmu_data_analytics.Parser.Trailer.{with_crc, length-with_crc, slice_body, u16_at_crc}
use pmu_data_analytics.Parser.Config.{parse_config_frame_1and2}
use pmu_data_analytics.Parser.Config.Layout.{IsConfig}
use pmu_data_analytics.Parser.Config.RoundTrip.{parse_config_frame_1and2-put}
use pmu_data_analytics.Parser.Dispatch.Streams.{config_fields, config_body, config_body-put}
use pmu_data_analytics.Client.{PdcClient}
use pmu_data_analytics.Client.Connect.{
  IoError, Reply, Server, whole_frames, read_config, get_config_frame,
}

-- What the client asks for.
abbrev pub config_request : ℕ → Bytes
config_request idcode = Command.to_hex (new_send_config_frame1 idcode)

-- A configuration frame with its own size and checksum.
pub record IsSealed (f : ConfigurationFrame) : Type 0 where
  pub fields : IsConfig f
  pub sized : f.prefix.framesize ≡ length (config_fields f) + 16
  pub checked : f.chk ≡ calculate_crc (config_body f)

-- The server sends this configuration, and all of it has arrived when the client reads the rest: the
-- read gives as many bytes as the buffer takes.
abbrev pub config_reply : ConfigurationFrame → Reply
config_reply f = record {
  header = some (Prefix.to_hex f.prefix);
  arrived = λ capacity. take capacity (config_fields f ++ u16_bytes f.chk);
}

-- The client with the sizes of this configuration.
abbrev pub with_sizes : ConfigurationFrame → PdcClient → PdcClient
with_sizes f client = record client {
  frame_size = calc_data_frame_size f;
  max_buffer_size = whole_frames (calc_data_frame_size f);
}

read_config-with_crc :
    (build : Build) (prefix : PrefixFrame) (body : Bytes) (crc : ℕ) (f : ConfigurationFrame)
    (client : PdcClient)
    → prefix.framesize ≡ length (with_crc body crc)
    → crc < 2 ^ 16
    → calculate_crc body ≡ crc
    → parse_config_frame_1and2 build (with_crc body crc) ≡ ok f
    → read_config build prefix (with_crc body crc) client ≡ ok (f, with_sizes f client)
unfolding read_config
read_config-with_crc build prefix body crc f client size small checked parsed =
    rw
      (
        slice_body {E = IoError} body crc,
        size,
        u16_at_crc {E = IoError} body crc small,
        eq→== (calculate_crc body) crc checked,
        parsed,
      )
      refl

read_config-reply :
    (build : Build) (f : ConfigurationFrame) (client : PdcClient)
    → IsSealed f
    → read_config build f.prefix
        (Prefix.to_hex f.prefix ++ (config_fields f ++ u16_bytes f.chk))
        client
      ≡ ok (f, with_sizes f client)
read_config-reply build f client h =
    ap (λ complete. read_config build f.prefix complete client)
      (sym (append_assoc (Prefix.to_hex f.prefix) (config_fields f) (u16_bytes f.chk)))
    ∙ read_config-with_crc build f.prefix (config_body f) f.chk f client
        (omega (
          arith,
          h.sized,
          length-with_crc (config_body f) f.chk,
          length-append (Prefix.to_hex f.prefix) (config_fields f),
          length-to_hex f.prefix,
        ))
        h.fields.chk_u16 (sym h.checked)
        (ap (parse_config_frame_1and2 build) (config_body-put f)
          ∙ parse_config_frame_1and2-put build f h.fields)

pub get_config_frame-reply :
    (build : Build) (server : Server) (f : ConfigurationFrame) (client : PdcClient)
    → IsSealed f
    → server (config_request client.idcode) ≡ some (config_reply f)
    → get_config_frame build server client ≡ ok (f, with_sizes f client)
unfolding get_config_frame
get_config_frame-reply build server f client h answered =
    rw
      (
        answered,
        from_hex-to_hex f.prefix h.fields.prefix_fits,
        le→ltb f.prefix.framesize 14 (omega (arith, h.sized)),
        take_all (f.prefix.framesize - 14) (config_fields f ++ u16_bytes f.chk)
            (omega (arith, h.sized, length-append (config_fields f) (u16_bytes f.chk))),
      )
      (read_config-reply build f client h)
