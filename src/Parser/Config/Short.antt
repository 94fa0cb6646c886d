-- ===== src/Parser/Config/Short.antt =====
-- What `parse_config_frame_1and2` does with a buffer that ends too early, and with counts of
-- channels whose sum does not fit sixteen bits.
use pmu_data_analytics.Base.{
  ℕ, suc, ◌+◌, ◌*◌, ◌%◌, ◌^◌, ◌≤◌, ◌<◌, ◌≡◌, length, ok, err, panic, arith, lt→leb, ltb,
  if◌then◌else◌,
}
use pmu_data_analytics.Base.Bytes.{Bytes, u16_at}
use pmu_data_analytics.Base.Bytes.Bounds.{u32_at-ok}
use pmu_data_analytics.Base.Words.{Build, debug, release, word}
use pmu_data_analytics.Parser.Errors.{ParseError, insufficient_data}
use pmu_data_analytics.Parser.Reads.{parse_prefix-ok}
use pmu_data_analytics.Parser.Config.{
  chnam_bytes_len, parse_pmu_config, parse_pmu_configs, parse_config_frame_1and2,
}

-- The length of the channel names is sixteen for each channel. A sum that does not fit sixteen
-- bits panics in a debug build, and wraps in a release build.
pub chnam_bytes_len_overflow :
    (p a d : ℕ)
    → (chnam_bytes_len debug p a d
        ≡ (if ltb (p + a + 16 * d) (2 ^ 16) then ok (16 * (p + a + 16 * d)) else panic))
      × (chnam_bytes_len release p a d ≡ ok (16 * ((p + a + 16 * d) % 2 ^ 16)))
unfolding chnam_bytes_len word
chnam_bytes_len_overflow p a d = (ground arith, ground arith)

-- Without room for the twenty-six fixed bytes of a PMU the parser returns `InsufficientData`.
pub parse_pmu_config_no_room :
    (build : Build) (buffer : Bytes) (offset : ℕ)
    → length buffer < offset + 26
    → parse_pmu_config build buffer offset ≡ err insufficient_data
unfolding parse_pmu_config
parse_pmu_config_no_room build buffer offset h = rw (lt→leb (offset + 26) (length buffer) h)

-- A buffer that has the twenty bytes in front of the PMUs, announces a PMU and has no room for the
-- fixed bytes of the first is refused as `InsufficientData`.
pub parse_config_frame_1and2_short :
    (build : Build) (buffer : Bytes) (n : ℕ)
    → 20 ≤ length buffer
    → length buffer < 46
    → u16_at {E = ParseError} buffer 18 ≡ ok (suc n)
    → parse_config_frame_1and2 build buffer ≡ err insufficient_data
unfolding parse_config_frame_1and2 parse_pmu_configs
parse_config_frame_1and2_short build buffer n long short announced =
    let (p, e₁) = parse_prefix-ok buffer (omega arith) in
    let (t, e₂) = u32_at-ok {E = ParseError} buffer 14 (omega arith) in
    rw (e₁, e₂, announced, parse_pmu_config_no_room build buffer 20 short)
