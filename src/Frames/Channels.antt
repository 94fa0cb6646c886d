-- ===== src/Frames/Channels.antt =====
-- src/frames.rs, `get_column_names` and `get_channel_map`: the place of each channel in a data frame.
-- Text from bytes (`String::from_utf8_lossy(..).trim()`) and the `format!` of a station, a number and
-- a channel are parameters.
pub mod Drift
pub mod Places
pub mod Fits
use Prim.Native.String.{String}
use pmu_data_analytics.Base.{ℕ, ◌+◌, Bool, if◌then◌else◌, List, [], ◌∷◌, map, take, drop}
use pmu_data_analytics.Base.Bytes.{Bytes}
use pmu_data_analytics.Base.Chunks.{chunks}
use pmu_data_analytics.Base.Maps.{insert}
use pmu_data_analytics.Frames.Config.{
  PmuConfigurationFrame, ConfigurationFrame, has_flag, phasor_size, analog_size, freq_dfreq_size,
}

pub data ChannelDataType : Type 0 where
  phasor_float phasor_fixed analog_float analog_fixed digital : ChannelDataType
  freq_float freq_fixed dfreq_float dfreq_fixed : ChannelDataType

pub record ChannelInfo : Type 0 where
  pub data_type : ChannelDataType
  pub offset : ℕ
  pub size : ℕ

-- The map and `current_offset`.
abbrev pub ChannelState : Type 0
ChannelState = List (String × ChannelInfo) × ℕ

abbrev pub prefix_offset : ℕ
prefix_offset = 14

-- `channel_map.insert(..)` and the step of the offset.
abbrev pub insert_channel : ChannelDataType → ℕ → String → ChannelState → ChannelState
insert_channel t size name (channel_map, current_offset) = (
  insert name (record { data_type = t; offset = current_offset + prefix_offset; size = size })
      channel_map,
  current_offset + size,
)

unfoldable pub insert_channels : ChannelDataType → ℕ → List String → ChannelState → ChannelState
insert_channels t size [] state = state
insert_channels t size (name ∷ names) state =
    insert_channels t size names (insert_channel t size name state)

abbrev pub phasor_type : PmuConfigurationFrame → ChannelDataType
phasor_type c = if has_flag c.format 0x0002 then phasor_float else phasor_fixed

abbrev pub freq_type : PmuConfigurationFrame → ChannelDataType
freq_type c = if has_flag c.format 0x0008 then freq_float else freq_fixed

abbrev pub dfreq_type : PmuConfigurationFrame → ChannelDataType
dfreq_type c = if has_flag c.format 0x0008 then dfreq_float else dfreq_fixed

abbrev pub analog_type : PmuConfigurationFrame → ChannelDataType
analog_type c = if has_flag c.format 0x0004 then analog_float else analog_fixed

module _ (text : Bytes → String) (full_name : String → ℕ → String → String) where
  unfoldable pub get_column_names : PmuConfigurationFrame → List String
  get_column_names c =
      map (λ chunk. full_name (text c.stn) c.idcode (text chunk)) (chunks 16 c.chnam)

  -- The body of the loop over the PMUs.
  unfoldable pub insert_pmu : PmuConfigurationFrame → ChannelState → ChannelState
  insert_pmu c state =
      let names = get_column_names c in
      let station_name = text c.stn in
      let after_phasors =
        insert_channels (phasor_type c) (phasor_size c) (take c.phnmr names) state in
      let after_freq =
        insert_channel (freq_type c) (freq_dfreq_size c) (full_name station_name c.idcode "FREQ")
          after_phasors in
      let after_dfreq =
        insert_channel (dfreq_type c) (freq_dfreq_size c) (full_name station_name c.idcode "DFREQ")
          after_freq in
      let after_analogs =
        insert_channels (analog_type c) (analog_size c) (take c.annmr (drop c.phnmr names))
          after_dfreq in
      insert_channels digital 2 (take c.dgnmr (drop (c.phnmr + c.annmr) names)) after_analogs

  unfoldable pub insert_pmus : List PmuConfigurationFrame → ChannelState → ChannelState
  unfolding insert_pmu
  insert_pmus [] state = state
  insert_pmus (c ∷ cs) state = insert_pmus cs (insert_pmu c state)

  -- The offset starts behind the STAT word of the first PMU.
  unfoldable pub get_channel_map : ConfigurationFrame → List (String × ChannelInfo)
  unfolding insert_pmus
  get_channel_map config = (insert_pmus config.pmu_configs ([], 2)).0
