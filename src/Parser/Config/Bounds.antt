-- ===== src/Parser/Config/Bounds.antt =====
-- How much of the buffer the parser of one PMU's configuration takes, and when it panics.
use pmu_data_analytics.Base.{
  ℕ, zero, suc, ◌+◌, ◌*◌, ◌^◌, ◌≤◌, ◌<◌, ◌≡◌, refl, List, [], ◌∷◌, length, ok, panic, le→leb, arith,
}
use pmu_data_analytics.Base.Bytes.{Bytes, u16_at}
use pmu_data_analytics.Base.Bytes.Bounds.{u16_at-ok, u16_at-panic, slice-ok}
use pmu_data_analytics.Base.Chunks.{chunks, chunks_fuel, map_outcome, u32_of_chunk}
use pmu_data_analytics.Base.Words.{Build, word-ok}
use pmu_data_analytics.Frames.Config.{PmuConfigurationFrame}
use pmu_data_analytics.Parser.Errors.{ParseError}
use pmu_data_analytics.Parser.Reads.{bind-panic, u16_at-NoErr, slice-NoErr}
use pmu_data_analytics.Parser.Config.{chnam_bytes_len, u32s_at, parse_pmu_config}
use pmu_data_analytics.Parser.Config.Reads.{u32s_at-NoErr}

units-ok :
    (n fuel : ℕ) (block : Bytes)
    → length block ≡ 4 * n
    → length block ≤ fuel
    → (units : List ℕ) × (map_outcome {E = ParseError} u32_of_chunk (chunks_fuel fuel 4 block)
        ≡ ok units)
unfolding map_outcome chunks_fuel u32_of_chunk
units-ok zero zero [] e h = ([], refl)
units-ok zero (suc fuel) [] e h = ([], refl)
units-ok zero fuel (a ∷ block) e h = absurd (omega arith)
units-ok (suc n) fuel [] e h = absurd (omega arith)
units-ok (suc n) fuel (a ∷ []) e h = absurd (omega arith)
units-ok (suc n) fuel (a ∷ b ∷ []) e h = absurd (omega arith)
units-ok (suc n) fuel (a ∷ b ∷ c ∷ []) e h = absurd (omega arith)
units-ok (suc n) zero (a ∷ b ∷ c ∷ d ∷ block) e h = absurd (omega arith)
units-ok (suc n) (suc fuel) (a ∷ b ∷ c ∷ d ∷ block) e h =
    let (units, rest) = units-ok n fuel block (omega arith) (omega arith) in
    ((a * 16777216 + b * 65536 + c * 256 + d) ∷ units, rw rest refl)

u32s_at-ok :
    (buffer : Bytes) (offset n : ℕ)
    → offset + 4 * n ≤ length buffer
    → (units : List ℕ) × (u32s_at buffer offset n ≡ ok units)
unfolding u32s_at chunks
u32s_at-ok buffer offset n room =
    let (block, e, len) = slice-ok {E = ParseError} buffer offset (4 * n) room in
    let (units, read) = units-ok n (length block) block len (omega arith) in (units, rw e read)

-- The bytes of a PMU's configuration with these counts: the fixed ones, sixteen for each name, four
-- for each unit, and four for the nominal frequency and the count of changes.
abbrev pub counted_len : ℕ → ℕ → ℕ → ℕ
counted_len p a d = 26 + 16 * (p + a + 16 * d) + 4 * p + 4 * a + 4 * d + 4

module _ (build : Build) (buffer : Bytes) (offset p a d : ℕ) (fixed : offset + 26 ≤ length buffer)
    (phasors : u16_at {E = ParseError} buffer (offset + 20) ≡ ok p)
    (analogs : u16_at {E = ParseError} buffer (offset + 22) ≡ ok a)
    (digitals : u16_at {E = ParseError} buffer (offset + 24) ≡ ok d)
    (fits : p + a + 16 * d < 2 ^ 16) where
  names_len : chnam_bytes_len build p a d ≡ ok (16 * (p + a + 16 * d))
  unfolding chnam_bytes_len
  names_len =
      rw
        (
          word-ok {E = ParseError} build 16 (p + a) (omega arith),
          word-ok {E = ParseError} build 16 (16 * d) (omega arith),
          word-ok {E = ParseError} build 16 (p + a + 16 * d) fits,
        )
        refl

  enough :
      offset + counted_len p a d ≤ length buffer
      → (c : PmuConfigurationFrame) × (parse_pmu_config build buffer offset
          ≡ ok (c, offset + counted_len p a d))
        × (c.phnmr ≡ p)
        × (c.annmr ≡ a)
        × (c.dgnmr ≡ d)
  unfolding parse_pmu_config
  enough room =
      let names : ℕ = 16 * (p + a + 16 * d) in
      let o : ℕ = offset + 26 in
      let (stn, e₁, l₁) = slice-ok {E = ParseError} buffer offset 16 (omega arith) in
      let (idcode, e₂) = u16_at-ok {E = ParseError} buffer (offset + 16) (omega arith) in
      let (format, e₃) = u16_at-ok {E = ParseError} buffer (offset + 18) (omega arith) in
      let (chnam, e₄, l₄) = slice-ok {E = ParseError} buffer o names (omega arith) in
      let (phunit, e₅) = u32s_at-ok buffer (o + names) p (omega arith) in
      let (anunit, e₆) = u32s_at-ok buffer (o + names + 4 * p) a (omega arith) in
      let (digunit, e₇) = u32s_at-ok buffer (o + names + 4 * p + 4 * a) d (omega arith) in
      let behind : ℕ = o + names + 4 * p + 4 * a + 4 * d in
      let (fnom, e₈) = u16_at-ok {E = ParseError} buffer behind (omega arith) in
      let (cfgcnt, e₉) = u16_at-ok {E = ParseError} buffer (behind + 2) (omega arith) in
      (
        record {
          stn = stn;
          idcode = idcode;
          format = format;
          phnmr = p;
          annmr = a;
          dgnmr = d;
          chnam = chnam;
          phunit = phunit;
          anunit = anunit;
          digunit = digunit;
          fnom = fnom;
          cfgcnt = cfgcnt;
        },
        rw
            (
              le→leb (offset + 26) (length buffer) fixed,
              e₁,
              e₂,
              e₃,
              phasors,
              analogs,
              digitals,
              names_len,
              e₄,
              e₅,
              e₆,
              e₇,
              e₈,
              e₉,
            )
            (ground arith),
        refl,
        refl,
        refl,
      )

  truncated :
      length buffer < offset + counted_len p a d → parse_pmu_config build buffer offset ≡ panic
  unfolding parse_pmu_config
  truncated short =
      rw (le→leb (offset + 26) (length buffer) fixed, phasors, analogs, digitals, names_len)
        (bind-panic _ _ (slice-NoErr buffer _ _) λ stn.
          bind-panic _ _ (u16_at-NoErr buffer _) λ idcode.
            bind-panic _ _ (u16_at-NoErr buffer _) λ format.
              bind-panic _ _ (slice-NoErr buffer _ _) λ chnam.
                bind-panic _ _ (u32s_at-NoErr buffer _ _) λ phunit.
                  bind-panic _ _ (u32s_at-NoErr buffer _ _) λ anunit.
                    bind-panic _ _ (u32s_at-NoErr buffer _ _) λ digunit.
                      bind-panic _ _ (u16_at-NoErr buffer _) λ fnom.
                        let behind : ℕ =
                          offset + 26 + 16 * (p + a + 16 * d) + 4 * p + 4 * a + 4 * d in
                        rw (u16_at-panic {E = ParseError} buffer (behind + 2) (omega arith)) refl)

  -- In either build, for a buffer with the twenty-six fixed bytes of a PMU and counts of channels whose
  -- sum fits sixteen bits: if all the bytes that these counts need are there, the parser of one PMU
  -- succeeds with these counts and an offset just behind those bytes; if one is missing, it panics.
  pub parse_pmu_config_bounds :
      (offset + counted_len p a d ≤ length buffer
        → (c : PmuConfigurationFrame) × (parse_pmu_config build buffer offset
            ≡ ok (c, offset + counted_len p a d))
          × (c.phnmr ≡ p)
          × (c.annmr ≡ a)
          × (c.dgnmr ≡ d))
      × (length buffer < offset + counted_len p a d → parse_pmu_config build buffer offset ≡ panic)
  parse_pmu_config_bounds = (enough, truncated)
