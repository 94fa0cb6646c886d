-- ===== src/Parser/Dispatch/Streams.antt =====
-- Data and configuration frames laid out by the standard, through the checks of `parse_frame`.
use pmu_data_analytics.Base.{
  ℕ, ◌+◌, ◌/◌, ◌%◌, ◌^◌, ◌<◌, ◌≡◌, refl, sym, ap, ◌∙◌, ◌⊎◌, inl, inr, List, [], ◌∷◌, ◌++◌, length,
  All, Option, some, ok, arith, subst, append_assoc, bits_of_i16, ◌>>=◌,
}
use pmu_data_analytics.Base.Bytes.{Bytes, u16_bytes, u32_bytes}
use pmu_data_analytics.Base.Words.{Build}
use pmu_data_analytics.Frames.Crc.{calculate_crc}
use pmu_data_analytics.Frames.Crc.Detect.{IsByte, calculate_crc-IsWord}
use pmu_data_analytics.Frames.Prefix
use pmu_data_analytics.Frames.Prefix.{PrefixFrame, IsPrefix}
use pmu_data_analytics.Frames.Prefix.RoundTrip.{u16_round_trip}
use pmu_data_analytics.Frames.Config.{PmuConfigurationFrame, ConfigurationFrame}
use pmu_data_analytics.Frames.Data.{DataFrame}
use pmu_data_analytics.Parser.Errors.{Frame}
use pmu_data_analytics.Parser.Trailer.{with_crc}
use pmu_data_analytics.Parser.Data.Layout.{AllMatch, put_pmus, put_pmus-append, put_data_frame}
use pmu_data_analytics.Parser.Data.RoundTrip.{parse_data_frames-put}
use pmu_data_analytics.Parser.Config.{parse_config_frame_1and2}
use pmu_data_analytics.Parser.Config.Layout.{
  IsConfig, put_pmu_config, put_pmu_configs, put_config_frame,
}
use pmu_data_analytics.Parser.Config.RoundTrip.{parse_config_frame_1and2-put}
use pmu_data_analytics.Parser.Dispatch.{parse_frame, parse_by_type}
use pmu_data_analytics.Parser.Dispatch.Checks.{body_of, IsFramed, seal, parse_frame-seal}
use pmu_data_analytics.Parser.Dispatch.Commands.{IsSync, rest_of, prefix-body}

-- A frame of bytes that begins with a prefix of the given type, has the size that the prefix says
-- and ends with its checksum, reaches the parser for its type.
parse_frame-prefix :
    (build : Build) (kind : ℕ) (p : PrefixFrame) (xs : Bytes) (config : Option ConfigurationFrame)
    → IsPrefix p
    → IsSync kind p.sync
    → p.framesize ≡ length xs + 16
    → All IsByte (Prefix.to_hex p ++ xs)
    → parse_frame build (seal (Prefix.to_hex p ++ xs)) config
      ≡ parse_by_type build kind (seal (Prefix.to_hex p ++ xs)) config
parse_frame-prefix build kind p xs config hp s size bytes =
    let second : ℕ = p.sync % 2 ^ 8 in
    let f₀ : ℕ = p.framesize / 2 ^ 8 % 2 ^ 8 in
    let f₁ : ℕ = p.framesize % 2 ^ 8 in
    let split : Prefix.to_hex p ++ xs ≡ body_of second f₀ f₁ (rest_of p xs) =
      prefix-body p xs s.lead in
    let framed : IsFramed second f₀ f₁ (rest_of p xs) = record {
      second_byte = omega arith;
      version = s.version;
      size = omega (arith, u16_round_trip p.framesize hp.framesize_u16, size);
    } in
    ap (λ t. parse_frame build (seal t) config) split
    ∙ parse_frame-seal build second f₀ f₁ config (rest_of p xs) framed
        (subst (All IsByte) split bytes)
    ∙ ap (λ k. parse_by_type build k (seal (body_of second f₀ f₁ (rest_of p xs))) config)
        s.type_bits
    ∙ ap (λ t. parse_by_type build kind (seal t) config) (sym split)

-- The bytes of a data frame before its checksum.
abbrev pub data_body : DataFrame → Bytes
data_body frame = Prefix.to_hex frame.prefix ++ put_pmus frame.pmu_data []

data_body-put : (frame : DataFrame) → with_crc (data_body frame) frame.chk ≡ put_data_frame frame
data_body-put frame =
    append_assoc (Prefix.to_hex frame.prefix) (put_pmus frame.pmu_data []) (u16_bytes frame.chk)
    ∙ ap (λ t. Prefix.to_hex frame.prefix ++ t)
        (sym (put_pmus-append frame.pmu_data [] (u16_bytes frame.chk)))

-- A data frame that has the fields that the configuration gives, the size that its prefix says and
-- its own checksum is read back by `parse_frame` with that configuration, where no PMU with floating
-- frequencies has phasors.
pub parse_frame-data :
    (build : Build) (frame : DataFrame) (config : ConfigurationFrame)
    → IsPrefix frame.prefix
    → IsSync 0 frame.prefix.sync
    → frame.prefix.framesize ≡ length (put_pmus frame.pmu_data []) + 16
    → All IsByte (data_body frame)
    → AllMatch config.pmu_configs frame.pmu_data
    → frame.chk ≡ calculate_crc (data_body frame)
    → parse_frame build (put_data_frame frame) (some config) ≡ ok (Frame.data_frame frame)
unfolding parse_by_type
parse_frame-data build frame config hp s size bytes m crc =
    let sealed : seal (data_body frame) ≡ put_data_frame frame =
      ap (with_crc (data_body frame)) (sym crc) ∙ data_body-put frame in
    let small : frame.chk < 2 ^ 16 = rw crc (calculate_crc-IsWord (data_body frame) bytes) in
    ap (λ t. parse_frame build t (some config)) (sym sealed)
    ∙ parse_frame-prefix build 0 frame.prefix (put_pmus frame.pmu_data []) (some config) hp s size
        bytes
    ∙ rw (sealed, parse_data_frames-put frame config hp small m)

put_pmu_config-append :
    (c : PmuConfigurationFrame) (xs ys : Bytes)
    → put_pmu_config c (xs ++ ys) ≡ put_pmu_config c xs ++ ys
put_pmu_config-append c xs ys = simp append_assoc

put_pmu_configs-append :
    (cs : List PmuConfigurationFrame) (xs ys : Bytes)
    → put_pmu_configs cs (xs ++ ys) ≡ put_pmu_configs cs xs ++ ys
put_pmu_configs-append [] xs ys = refl
put_pmu_configs-append (c ∷ cs) xs ys =
    ap (put_pmu_config c) (put_pmu_configs-append cs xs ys)
    ∙ put_pmu_config-append c (put_pmu_configs cs xs) ys

-- The bytes of a configuration frame between its prefix and its checksum.
abbrev pub config_fields : ConfigurationFrame → Bytes
config_fields f =
    u32_bytes f.time_base
    ++ (u16_bytes f.num_pmu ++ put_pmu_configs f.pmu_configs (u16_bytes (bits_of_i16 f.data_rate)))

abbrev pub config_body : ConfigurationFrame → Bytes
config_body f = Prefix.to_hex f.prefix ++ config_fields f

pub config_body-put : (f : ConfigurationFrame) → with_crc (config_body f) f.chk ≡ put_config_frame f
config_body-put f =
    append_assoc (Prefix.to_hex f.prefix) (config_fields f) (u16_bytes f.chk)
    ∙ ap (λ t. Prefix.to_hex f.prefix ++ (u32_bytes f.time_base ++ (u16_bytes f.num_pmu ++ t)))
        (sym (
          put_pmu_configs-append f.pmu_configs (u16_bytes (bits_of_i16 f.data_rate))
            (u16_bytes f.chk)))

by_type-config :
    (build : Build) (kind : ℕ) (buffer : Bytes) (config : Option ConfigurationFrame)
    → (kind ≡ 2) ⊎ (kind ≡ 3)
    → parse_by_type build kind buffer config
      ≡ (parse_config_frame_1and2 build buffer >>= λ c. ok (Frame.configuration c))
unfolding parse_by_type
by_type-config build kind buffer config (inl e) = rw e
by_type-config build kind buffer config (inr e) = rw e

-- A configuration frame of type 1 or 2 that has the size that its prefix says and its own checksum
-- is read back by `parse_frame`, in either build and whatever configuration is known.
pub parse_frame-config :
    (build : Build) (kind : ℕ) (f : ConfigurationFrame) (config : Option ConfigurationFrame)
    → (kind ≡ 2) ⊎ (kind ≡ 3)
    → IsConfig f
    → IsSync kind f.prefix.sync
    → f.prefix.framesize ≡ length (config_fields f) + 16
    → All IsByte (config_body f)
    → f.chk ≡ calculate_crc (config_body f)
    → parse_frame build (put_config_frame f) config ≡ ok (Frame.configuration f)
parse_frame-config build kind f config k h s size bytes crc =
    let sealed : seal (config_body f) ≡ put_config_frame f =
      ap (with_crc (config_body f)) (sym crc) ∙ config_body-put f in
    ap (λ t. parse_frame build t config) (sym sealed)
    ∙ parse_frame-prefix build kind f.prefix (config_fields f) config h.prefix_fits s size bytes
    ∙ by_type-config build kind (seal (config_body f)) config k
    ∙ rw (sealed, parse_config_frame_1and2-put build f h)
