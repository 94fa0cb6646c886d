-- ===== src/Parser/Config.antt =====
-- src/frame_parser.rs, `parse_config_frame_1and2` and the parser that is still to be written.
pub mod Layout
pub mod RoundTrip
pub mod Short
pub mod Reads
pub mod Bounds
use pmu_data_analytics.Base.{
  ℕ, zero, suc, ◌+◌, ◌*◌, leb, length, List, [], ◌∷◌, i16_of_bits, ok, panic, ensure, ◌>>=◌, ◌>>◌,
}
use pmu_data_analytics.Base.Bytes.{Bytes, slice, u16_at, u32_at}
use pmu_data_analytics.Base.Chunks.{chunks, map_outcome, u32_of_chunk}
use pmu_data_analytics.Base.Words.{Build, word}
use pmu_data_analytics.Frames.Config.{PmuConfigurationFrame, ConfigurationFrame}
use pmu_data_analytics.Parser.Errors.{
  Parse, ParseError, insufficient_data, Frame, prefix_size, parse_prefix,
}

-- `16 * (phnmr + annmr + 16 * dgnmr) as usize`: the sum and the product inside are of type `u16`.
unfoldable pub chnam_bytes_len : Build → ℕ → ℕ → ℕ → Parse ℕ
chnam_bytes_len build phnmr annmr dgnmr = do
  analogs ← word build 16 (phnmr + annmr)
  digitals ← word build 16 (16 * dgnmr)
  names ← word build 16 (analogs + digitals)
  ok (16 * names)

-- `buffer[offset..offset + 4 * n].chunks(4).map(u32::from_be_bytes)`
unfoldable pub u32s_at : Bytes → ℕ → ℕ → Parse (List ℕ)
u32s_at buffer offset n = do
  units ← slice buffer offset (offset + 4 * n)
  map_outcome u32_of_chunk (chunks 4 units)

-- The body of the loop: a PMU's configuration, and the offset behind it.
unfoldable pub parse_pmu_config : Build → Bytes → ℕ → Parse (PmuConfigurationFrame × ℕ)
unfolding chnam_bytes_len u32s_at
parse_pmu_config build buffer offset = do
  ensure (leb (offset + 26) (length buffer)) insufficient_data
  stn ← slice buffer offset (offset + 16)
  idcode ← u16_at buffer (offset + 16)
  format ← u16_at buffer (offset + 18)
  phnmr ← u16_at buffer (offset + 20)
  annmr ← u16_at buffer (offset + 22)
  dgnmr ← u16_at buffer (offset + 24)
  names_len ← chnam_bytes_len build phnmr annmr dgnmr
  let after_dgnmr = offset + 26
  chnam ← slice buffer after_dgnmr (after_dgnmr + names_len)
  let after_chnam = after_dgnmr + names_len
  phunit ← u32s_at buffer after_chnam phnmr
  let after_phunit = after_chnam + 4 * phnmr
  anunit ← u32s_at buffer after_phunit annmr
  let after_anunit = after_phunit + 4 * annmr
  digunit ← u32s_at buffer after_anunit dgnmr
  let after_digunit = after_anunit + 4 * dgnmr
  fnom ← u16_at buffer after_digunit
  cfgcnt ← u16_at buffer (after_digunit + 2)
  ok (
    record {
      stn = stn;
      idcode = idcode;
      format = format;
      phnmr = phnmr;
      annmr = annmr;
      dgnmr = dgnmr;
      chnam = chnam;
      phunit = phunit;
      anunit = anunit;
      digunit = digunit;
      fnom = fnom;
      cfgcnt = cfgcnt;
    },
    after_digunit + 4,
  )

-- `for _ in 0..num_pmu`
unfoldable pub parse_pmu_configs : Build → Bytes → ℕ → ℕ → Parse (List PmuConfigurationFrame × ℕ)
unfolding parse_pmu_config
parse_pmu_configs build buffer offset zero = ok ([], offset)
parse_pmu_configs build buffer offset (suc n) = do
  parsed ← parse_pmu_config build buffer offset
  rest ← parse_pmu_configs build buffer parsed.1 n
  ok (parsed.0 ∷ rest.0, rest.1)

unfoldable pub parse_config_frame_1and2 : Build → Bytes → Parse ConfigurationFrame
unfolding parse_pmu_configs
parse_config_frame_1and2 build buffer = do
  common_header ← parse_prefix buffer
  time_base ← u32_at buffer prefix_size
  num_pmu ← u16_at buffer (prefix_size + 4)
  parsed ← parse_pmu_configs build buffer (prefix_size + 6) num_pmu
  data_rate ← u16_at buffer parsed.1
  chk ← u16_at buffer (parsed.1 + 2)
  ok (record {
    prefix = common_header;
    time_base = time_base;
    num_pmu = num_pmu;
    pmu_configs = parsed.0;
    data_rate = i16_of_bits data_rate;
    chk = chk;
  })

-- `todo!`
unfoldable pub parse_config_frame_3 : Bytes → Parse Frame
parse_config_frame_3 buffer = panic
