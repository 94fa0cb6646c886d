-- ===== src/Parser/Config/Layout.antt =====
-- The bytes of a configuration frame by the standard: the fields in order, and their lengths.
use pmu_data_analytics.Base.{
  ℕ, ◌+◌, ◌*◌, ◌^◌, ◌<◌, ◌≡◌, List, [], ◌∷◌, ◌++◌, map, length, concat, All, bits_of_i16,
}
use pmu_data_analytics.Base.Bytes.{Bytes, u16_bytes, u32_bytes}
use pmu_data_analytics.Frames.Prefix
use pmu_data_analytics.Frames.Prefix.{IsPrefix}
use pmu_data_analytics.Frames.Config.{PmuConfigurationFrame, ConfigurationFrame}
use pmu_data_analytics.Parser.Data.Layout.{IsI16}

abbrev pub put_u32s : List ℕ → Bytes → Bytes
put_u32s us rest = concat (map u32_bytes us) ++ rest

-- CHNAM, PHUNIT, ANUNIT, DIGUNIT, FNOM, CFGCNT.
abbrev pub put_names : PmuConfigurationFrame → Bytes → Bytes
put_names c rest =
    c.chnam
    ++ put_u32s c.phunit
        (put_u32s c.anunit (put_u32s c.digunit (u16_bytes c.fnom ++ (u16_bytes c.cfgcnt ++ rest))))

-- STN, IDCODE, FORMAT, PHNMR, ANNMR, DGNMR, and the rest.
abbrev pub put_pmu_config : PmuConfigurationFrame → Bytes → Bytes
put_pmu_config c rest =
    c.stn
    ++ (u16_bytes c.idcode
        ++ (u16_bytes c.format
            ++ (u16_bytes c.phnmr
                ++ (u16_bytes c.annmr ++ (u16_bytes c.dgnmr ++ put_names c rest)))))

abbrev pub put_pmu_configs : List PmuConfigurationFrame → Bytes → Bytes
put_pmu_configs [] rest = rest
put_pmu_configs (c ∷ cs) rest = put_pmu_config c (put_pmu_configs cs rest)

-- The prefix, TIME_BASE, NUM_PMU, the PMUs, DATA_RATE, CHK.
abbrev pub put_config_frame : ConfigurationFrame → Bytes
put_config_frame f =
    Prefix.to_hex f.prefix
    ++ (u32_bytes f.time_base
        ++ (u16_bytes f.num_pmu
            ++ put_pmu_configs f.pmu_configs
                (u16_bytes (bits_of_i16 f.data_rate) ++ u16_bytes f.chk)))

-- The number of channel names.
abbrev pub channels : PmuConfigurationFrame → ℕ
channels c = c.phnmr + c.annmr + 16 * c.dgnmr

abbrev pub IsU32 : ℕ → Type 0
IsU32 w = w < 2 ^ 32

pub record IsPmuConfig (c : PmuConfigurationFrame) : Type 0 where
  pub stn_len : length c.stn ≡ 16
  pub idcode_u16 : c.idcode < 2 ^ 16
  pub format_u16 : c.format < 2 ^ 16
  pub phnmr_u16 : c.phnmr < 2 ^ 16
  pub annmr_u16 : c.annmr < 2 ^ 16
  pub dgnmr_u16 : c.dgnmr < 2 ^ 16
  pub fnom_u16 : c.fnom < 2 ^ 16
  pub cfgcnt_u16 : c.cfgcnt < 2 ^ 16
  pub channels_u16 : channels c < 2 ^ 16
  pub chnam_len : length c.chnam ≡ 16 * channels c
  pub phunit_len : length c.phunit ≡ c.phnmr
  pub anunit_len : length c.anunit ≡ c.annmr
  pub digunit_len : length c.digunit ≡ c.dgnmr
  pub phunit_u32 : All IsU32 c.phunit
  pub anunit_u32 : All IsU32 c.anunit
  pub digunit_u32 : All IsU32 c.digunit

pub record IsConfig (f : ConfigurationFrame) : Type 0 where
  pub prefix_fits : IsPrefix f.prefix
  pub time_base_u32 : f.time_base < 2 ^ 32
  pub num_pmu_u16 : f.num_pmu < 2 ^ 16
  pub num_pmu_len : length f.pmu_configs ≡ f.num_pmu
  pub pmus_fit : All IsPmuConfig f.pmu_configs
  pub data_rate_i16 : IsI16 f.data_rate
  pub chk_u16 : f.chk < 2 ^ 16
