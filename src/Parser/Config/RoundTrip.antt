-- ===== src/Parser/Config/RoundTrip.antt =====
-- A configuration frame laid out by the standard is read back by `parse_config_frame_1and2`.
use pmu_data_analytics.Base.{
  ℕ, true, zero, suc, ◌+◌, ◌*◌, ◌^◌, ◌<◌, ◌≡◌, refl, ap, List, [], ◌∷◌, ◌++◌, map, length, concat,
  All, bits_of_i16, ok, arith, le→leb, leb,
}
use pmu_data_analytics.Base.Bytes.{Bytes, u16_bytes, u32_bytes}
use pmu_data_analytics.Base.Bytes.Cursor.{
  At, At-zero, At-append, At-skip, slice-At, u16_at-At, u32_at-At,
}
use pmu_data_analytics.Base.Chunks.{chunks-concat, map_outcome-ok, u32_of_chunk}
use pmu_data_analytics.Base.Words.{Build, word-ok}
use pmu_data_analytics.Frames.Prefix
use pmu_data_analytics.Frames.Prefix.RoundTrip.{u16_round_trip, u32_round_trip, length-to_hex}
use pmu_data_analytics.Frames.Config.{PmuConfigurationFrame, ConfigurationFrame}
use pmu_data_analytics.Parser.Errors.{ParseError}
use pmu_data_analytics.Parser.Command.RoundTrip.{parse_prefix-to_hex}
use pmu_data_analytics.Parser.Data.RoundTrip.{i16_round_trip}
use pmu_data_analytics.Parser.Config.{
  chnam_bytes_len, u32s_at, parse_pmu_config, parse_pmu_configs, parse_config_frame_1and2,
}
use pmu_data_analytics.Parser.Config.Layout.{
  put_u32s, put_pmu_config, put_pmu_configs, put_config_frame, channels, IsU32, IsPmuConfig,
  IsConfig,
}

length-concat_u32s : (us : List ℕ) → length (concat (map u32_bytes us)) ≡ 4 * length us
length-concat_u32s [] = refl
length-concat_u32s (u ∷ us) = omega (arith, length-concat_u32s us)

four_times : (us : List ℕ) → All (λ b. length b ≡ 4) (map u32_bytes us)
four_times [] = tt
four_times (u ∷ us) = (refl, four_times us)

u32_of_chunk-u32_bytes :
    (us : List ℕ) → All IsU32 us → All (λ u. u32_of_chunk {E = ParseError} (u32_bytes u) ≡ ok u) us
unfolding u32_of_chunk
u32_of_chunk-u32_bytes [] h = tt
u32_of_chunk-u32_bytes (u ∷ us) h = (ap ok (u32_round_trip u h.0), u32_of_chunk-u32_bytes us h.1)

u32s_at-At :
    (buffer : Bytes) (offset n : ℕ) (us : List ℕ) (rest : Bytes)
    → At buffer offset (put_u32s us rest)
    → length us ≡ n
    → All IsU32 us
    → u32s_at buffer offset n ≡ ok us
unfolding u32s_at
u32s_at-At buffer offset n us rest at e h =
    rw
      (
        slice-At buffer offset (4 * n) (concat (map u32_bytes us)) rest at
            (omega (arith, length-concat_u32s us)),
        chunks-concat 4 (map u32_bytes us) (omega arith) (four_times us),
      )
      (map_outcome-ok u32_of_chunk u32_bytes us (u32_of_chunk-u32_bytes us h))

chnam_bytes_len-ok :
    (build : Build) (c : PmuConfigurationFrame)
    → channels c < 2 ^ 16
    → chnam_bytes_len build c.phnmr c.annmr c.dgnmr ≡ ok (16 * channels c)
unfolding chnam_bytes_len
chnam_bytes_len-ok build c h = rw (
  word-ok build 16 (c.phnmr + c.annmr) (omega arith),
  word-ok build 16 (16 * c.dgnmr) (omega arith),
  word-ok build 16 (c.phnmr + c.annmr + 16 * c.dgnmr) h,
)

-- The bytes that one PMU's configuration takes.
abbrev pub config_len : PmuConfigurationFrame → ℕ
config_len c = 26 + 16 * channels c + 4 * c.phnmr + 4 * c.annmr + 4 * c.dgnmr + 4

parse_pmu_config-put :
    (build : Build) (buffer : Bytes) (offset : ℕ) (c : PmuConfigurationFrame) (rest : Bytes)
    → IsPmuConfig c
    → At buffer offset (put_pmu_config c rest)
    → (parse_pmu_config build buffer offset ≡ ok (c, offset + config_len c))
      × At buffer (offset + config_len c) rest
unfolding parse_pmu_config
parse_pmu_config-put build buffer offset c rest h at =
    let n : ℕ = 16 * channels c in
    let p : ℕ = 4 * c.phnmr in
    let a : ℕ = 4 * c.annmr in
    let d : ℕ = 4 * c.dgnmr in
    let o : ℕ = offset + 26 in
    let at₁ = At-append buffer offset 16 c.stn _ at h.stn_len in
    let at₂ =
      At-skip buffer (offset + 16) 2 (offset + 18) (u16_bytes c.idcode) _ at₁ refl (omega arith) in
    let at₃ =
      At-skip buffer (offset + 18) 2 (offset + 20) (u16_bytes c.format) _ at₂ refl (omega arith) in
    let at₄ =
      At-skip buffer (offset + 20) 2 (offset + 22) (u16_bytes c.phnmr) _ at₃ refl (omega arith) in
    let at₅ =
      At-skip buffer (offset + 22) 2 (offset + 24) (u16_bytes c.annmr) _ at₄ refl (omega arith) in
    let at₆ = At-skip buffer (offset + 24) 2 o (u16_bytes c.dgnmr) _ at₅ refl (omega arith) in
    let at₇ = At-append buffer o n c.chnam _ at₆ h.chnam_len in
    let l₇ : length (concat (map u32_bytes c.phunit)) ≡ p =
      omega (arith, length-concat_u32s c.phunit, h.phunit_len) in
    let l₈ : length (concat (map u32_bytes c.anunit)) ≡ a =
      omega (arith, length-concat_u32s c.anunit, h.anunit_len) in
    let l₉ : length (concat (map u32_bytes c.digunit)) ≡ d =
      omega (arith, length-concat_u32s c.digunit, h.digunit_len) in
    let at₈ = At-append buffer (o + n) p (concat (map u32_bytes c.phunit)) _ at₇ l₇ in
    let at₉ = At-append buffer (o + n + p) a (concat (map u32_bytes c.anunit)) _ at₈ l₈ in
    let at₁₀ = At-append buffer (o + n + p + a) d (concat (map u32_bytes c.digunit)) _ at₉ l₉ in
    let at₁₁ = At-append buffer (o + n + p + a + d) 2 (u16_bytes c.fnom) _ at₁₀ refl in
    let room : leb (offset + 26) (length buffer) ≡ true =
      le→leb (offset + 26) (length buffer) (omega (arith, at₆.fits)) in
    let last = At-append buffer (o + n + p + a + d + 2) 2 (u16_bytes c.cfgcnt) rest at₁₁ refl in
    let total : o + n + p + a + d + 4 ≡ offset + config_len c = omega arith in
    let end : offset + config_len c ≡ o + n + p + a + d + 2 + 2 = omega arith in
    (
      rw
          (
            room,
            slice-At buffer offset 16 c.stn _ at h.stn_len,
            u16_at-At buffer (offset + 16) _ _ _ at₁,
            u16_round_trip c.idcode h.idcode_u16,
            u16_at-At buffer (offset + 18) _ _ _ at₂,
            u16_round_trip c.format h.format_u16,
            u16_at-At buffer (offset + 20) _ _ _ at₃,
            u16_round_trip c.phnmr h.phnmr_u16,
            u16_at-At buffer (offset + 22) _ _ _ at₄,
            u16_round_trip c.annmr h.annmr_u16,
            u16_at-At buffer (offset + 24) _ _ _ at₅,
            u16_round_trip c.dgnmr h.dgnmr_u16,
            chnam_bytes_len-ok build c h.channels_u16,
            slice-At buffer o n c.chnam _ at₆ h.chnam_len,
            u32s_at-At buffer (o + n) c.phnmr c.phunit _ at₇ h.phunit_len h.phunit_u32,
            u32s_at-At buffer (o + n + p) c.annmr c.anunit _ at₈ h.anunit_len h.anunit_u32,
            u32s_at-At buffer (o + n + p + a) c.dgnmr c.digunit _ at₉ h.digunit_len h.digunit_u32,
            u16_at-At buffer (o + n + p + a + d) _ _ _ at₁₀,
            u16_round_trip c.fnom h.fnom_u16,
            u16_at-At buffer (o + n + p + a + d + 2) _ _ _ at₁₁,
            u16_round_trip c.cfgcnt h.cfgcnt_u16,
          )
          (ap (λ t. ok (c, t)) total),
      rw end last,
    )

parse_pmu_configs-put :
    (build : Build) (buffer : Bytes) (offset : ℕ) (cs : List PmuConfigurationFrame) (n : ℕ)
    (rest : Bytes)
    → All IsPmuConfig cs
    → length cs ≡ n
    → At buffer offset (put_pmu_configs cs rest)
    → (end : ℕ) × (parse_pmu_configs build buffer offset n ≡ ok (cs, end)) × At buffer end rest
unfolding parse_pmu_configs
parse_pmu_configs-put build buffer offset [] zero rest h e at = (offset, refl, at)
parse_pmu_configs-put build buffer offset [] (suc n) rest h e at = absurd (omega arith)
parse_pmu_configs-put build buffer offset (c ∷ cs) zero rest h e at = absurd (omega arith)
parse_pmu_configs-put build buffer offset (c ∷ cs) (suc n) rest h e at =
    let (first, at') =
      parse_pmu_config-put build buffer offset c (put_pmu_configs cs rest) h.0 at in
    let (end, others, at'') =
      parse_pmu_configs-put build buffer (offset + config_len c) cs n rest h.1 (omega arith) at' in
    (end, rw (first, others), at'')

-- A configuration frame whose fields have the widths and the lengths that its counts give, and
-- whose number of channel names fits sixteen bits, is read back as it was, in either build.
pub parse_config_frame_1and2-put :
    (build : Build) (f : ConfigurationFrame)
    → IsConfig f
    → parse_config_frame_1and2 build (put_config_frame f) ≡ ok f
unfolding parse_config_frame_1and2
parse_config_frame_1and2-put build f h =
    let buffer : Bytes = put_config_frame f in
    let at₀ =
      At-append buffer 0 14 (Prefix.to_hex f.prefix) _ (At-zero buffer) (length-to_hex f.prefix) in
    let at₁ = At-append buffer 14 4 (u32_bytes f.time_base) _ at₀ refl in
    let at₂ = At-append buffer 18 2 (u16_bytes f.num_pmu) _ at₁ refl in
    let tail : Bytes = u16_bytes (bits_of_i16 f.data_rate) ++ u16_bytes f.chk in
    let (end, configs, at₃) =
      parse_pmu_configs-put build buffer 20 f.pmu_configs f.num_pmu tail h.pmus_fit h.num_pmu_len
        at₂ in
    let at₄ =
      At-append buffer end 2 (u16_bytes (bits_of_i16 f.data_rate)) (u16_bytes f.chk) at₃ refl in
    rw (
      parse_prefix-to_hex f.prefix _ h.prefix_fits,
      u32_at-At buffer 14 _ _ _ _ _ at₀,
      u32_round_trip f.time_base h.time_base_u32,
      u16_at-At buffer 18 _ _ _ at₁,
      u16_round_trip f.num_pmu h.num_pmu_u16,
      configs,
      u16_at-At buffer end _ _ _ at₃,
      i16_round_trip f.data_rate h.data_rate_i16,
      u16_at-At buffer (end + 2) _ _ [] at₄,
      u16_round_trip f.chk h.chk_u16,
    )
