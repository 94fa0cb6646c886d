-- ===== src/Parser/Dispatch/Commands.antt =====
-- A command frame that a client writes is what `parse_frame` on the other side reads.
use pmu_data_analytics.Base.{
  ℕ, ◌/◌, ◌%◌, ◌^◌, ◌<◌, ◌≡◌, refl, sym, ap, ◌∙◌, ◌⊎◌, inl, ◌++◌, length, All, Option, none, some,
  ok, arith, subst,
}
use pmu_data_analytics.Base.Bytes.{Bytes, u16_bytes, u32_bytes}
use pmu_data_analytics.Base.Words.{Build}
use pmu_data_analytics.Frames.Crc.{calculate_crc}
use pmu_data_analytics.Frames.Crc.Detect.{IsByte}
use pmu_data_analytics.Frames.Prefix
use pmu_data_analytics.Frames.Prefix.{PrefixFrame, IsPrefix}
use pmu_data_analytics.Frames.Prefix.RoundTrip.{u16_round_trip}
use pmu_data_analytics.Frames.Command.{CommandFrame, payload, to_hex, new_command}
use pmu_data_analytics.Frames.Config.{ConfigurationFrame}
use pmu_data_analytics.Parser.Errors.{Frame}
use pmu_data_analytics.Parser.Command.{parse_command_frame}
use pmu_data_analytics.Parser.Command.RoundTrip.{
  IsCommand, ext_of, ext_length, payload_parts, payload-IsByte, parse_command_frame-to_hex,
}
use pmu_data_analytics.Parser.Dispatch.{parse_frame, parse_by_type, version_of, frame_type_of}
use pmu_data_analytics.Parser.Dispatch.Checks.{body_of, IsFramed, seal, parse_frame-seal}

-- The synchronisation word of a frame: AA hex, a known version, and its type.
pub record IsSync (kind sync : ℕ) : Type 0 where
  pub lead : sync / 2 ^ 8 ≡ 0xaa
  pub version : (version_of (sync % 2 ^ 8) ≡ 1) ⊎ (version_of (sync % 2 ^ 8) ≡ 2)
  pub type_bits : frame_type_of (sync % 2 ^ 8) ≡ kind

-- A prefix and what follows it, from the fifth byte on.
abbrev pub rest_of : PrefixFrame → Bytes → Bytes
rest_of p xs = u16_bytes p.idcode ++ (u32_bytes p.soc ++ (u32_bytes p.fracsec ++ xs))

pub prefix-body :
    (p : PrefixFrame) (xs : Bytes)
    → p.sync / 2 ^ 8 ≡ 0xaa
    → Prefix.to_hex p ++ xs
      ≡ body_of (p.sync % 2 ^ 8) (p.framesize / 2 ^ 8 % 2 ^ 8) (p.framesize % 2 ^ 8) (rest_of p xs)
unfolding Prefix.to_hex
prefix-body p xs e = ground arith

ext_of-length : (o : Option Bytes) → length (ext_of o) ≡ ext_length o
ext_of-length none = refl
ext_of-length (some ext) = refl

by_type-command :
    (build : Build) (kind : ℕ) (buffer : Bytes) (config : Option ConfigurationFrame)
    → kind ≡ 4
    → parse_by_type build kind buffer config ≡ parse_command_frame buffer
unfolding parse_by_type
by_type-command build kind buffer config e = rw e

-- Whatever the build and the configuration, a command whose fields fit their widths, whose extended
-- frame, if it has one, is not empty, whose size counts all its bytes and whose synchronisation word
-- says a command of a known version is read back by `parse_frame` from the bytes of `to_hex`, with
-- the checksum that was computed.
pub parse_frame-to_hex :
    (build : Build) (c : CommandFrame) (config : Option ConfigurationFrame)
    → IsCommand c
    → IsSync 4 c.prefix.sync
    → parse_frame build (to_hex c) config
      ≡ ok (Frame.command (record c { chk = calculate_crc (payload c) }))
parse_frame-to_hex build c config h s =
    let p : PrefixFrame = c.prefix in
    let xs : Bytes = u16_bytes c.command ++ ext_of c.extframe in
    let second : ℕ = p.sync % 2 ^ 8 in
    let f₀ : ℕ = p.framesize / 2 ^ 8 % 2 ^ 8 in
    let f₁ : ℕ = p.framesize % 2 ^ 8 in
    let split : payload c ≡ body_of second f₀ f₁ (rest_of p xs) =
      payload_parts c ∙ prefix-body p xs s.lead in
    let sealed : to_hex c ≡ seal (body_of second f₀ f₁ (rest_of p xs)) =
      unfold to_hex in ap seal split in
    let framed : IsFramed second f₀ f₁ (rest_of p xs) = record {
      second_byte = omega arith;
      version = s.version;
      size = omega (
        arith,
        u16_round_trip p.framesize h.prefix_fits.framesize_u16,
        h.size,
        ext_of-length c.extframe,
      );
    } in
    ap (λ t. parse_frame build t config) sealed
    ∙ parse_frame-seal build second f₀ f₁ config (rest_of p xs) framed
        (subst (All IsByte) split (payload-IsByte c h))
    ∙ by_type-command build (frame_type_of second) (seal (body_of second f₀ f₁ (rest_of p xs)))
        config s.type_bits
    ∙ ap parse_command_frame (sym sealed)
    ∙ parse_command_frame-to_hex c h

-- A command that `new_command` makes, for any stream and any command word that fit sixteen bits,
-- is read back by `parse_frame` as it was made, with the checksum filled in, whatever the build
-- and the configuration.
pub parse_frame-new_command :
    (build : Build) (idcode word : ℕ) (config : Option ConfigurationFrame)
    → idcode < 2 ^ 16
    → word < 2 ^ 16
    → let c = new_command idcode word in
      parse_frame build (to_hex c) config
      ≡ ok (Frame.command (record c { chk = calculate_crc (payload c) }))
unfolding new_command
parse_frame-new_command build idcode word config hi hw =
    parse_frame-to_hex build (new_command idcode word) config
      (record { prefix_fits = omega arith; command_u16 = hw; ext_fits = tt; size = refl })
      (record { lead = refl; version = inl refl; type_bits = refl })
