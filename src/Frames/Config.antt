-- ===== src/Frames/Config.antt =====
-- src/frames.rs, `PMUConfigurationFrame2011` and `ConfigurationFrame1and2_2011`: what a data stream
-- holds, and how long its frames are.
pub mod Sizes
use pmu_data_analytics.Base.{ℕ, ◌+◌, ◌*◌, Bool, not, List, [], ◌∷◌, ℤ, bit_and, ◌==◌, if◌then◌else◌}
use pmu_data_analytics.Base.Bytes.{Bytes}
use pmu_data_analytics.Frames.Prefix.{PrefixFrame}

pub record PmuConfigurationFrame : Type 0 where
  pub stn : Bytes
  pub idcode : ℕ
  pub format : ℕ
  pub phnmr : ℕ
  pub annmr : ℕ
  pub dgnmr : ℕ
  pub chnam : Bytes
  pub phunit : List ℕ
  pub anunit : List ℕ
  pub digunit : List ℕ
  pub fnom : ℕ
  pub cfgcnt : ℕ

pub record ConfigurationFrame : Type 0 where
  pub prefix : PrefixFrame
  pub time_base : ℕ
  pub num_pmu : ℕ
  pub pmu_configs : List PmuConfigurationFrame
  pub data_rate : ℤ
  pub chk : ℕ

-- `format & mask != 0`
abbrev pub has_flag : ℕ → ℕ → Bool
has_flag format mask = not (bit_and format mask == 0)

unfoldable pub freq_dfreq_size : PmuConfigurationFrame → ℕ
freq_dfreq_size c = if has_flag c.format 0x0008 then 4 else 2

unfoldable pub analog_size : PmuConfigurationFrame → ℕ
analog_size c = if has_flag c.format 0x0004 then 4 else 2

unfoldable pub phasor_size : PmuConfigurationFrame → ℕ
phasor_size c = if has_flag c.format 0x0002 then 8 else 4

unfoldable pub is_phasor_polar : PmuConfigurationFrame → Bool
is_phasor_polar c = has_flag c.format 0x0001

-- One round of the loop of `calc_data_frame_size`.
unfoldable pub pmu_data_size : PmuConfigurationFrame → ℕ
pmu_data_size c =
    2 + phasor_size c * c.phnmr + 2 * freq_dfreq_size c + analog_size c * c.annmr + 2 * c.dgnmr

unfoldable pub add_data_sizes : ℕ → List PmuConfigurationFrame → ℕ
add_data_sizes total_size [] = total_size
add_data_sizes total_size (c ∷ cs) = add_data_sizes (total_size + pmu_data_size c) cs

unfoldable pub calc_data_frame_size : ConfigurationFrame → ℕ
unfolding add_data_sizes
calc_data_frame_size config = add_data_sizes 16 config.pmu_configs
