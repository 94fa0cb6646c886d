-- ===== src/Frames/Channels/Fits.antt =====
-- The channels of `get_channel_map` lie within a data frame of the configuration.
use Prim.Native.String.{String}
use native.Mathlib.Nat.{mul-le-mul_left}
use pmu_data_analytics.Base.{
  ℕ, ◌+◌, ◌*◌, ◌≤◌, ◌≡◌, refl, List, [], ◌∷◌, take, drop, length, length-take, arith,
}
use pmu_data_analytics.Base.Bytes.{Bytes}
use pmu_data_analytics.Base.Maps.{Entries, Entries-insert, Entries-map}
use pmu_data_analytics.Frames.Config.{
  PmuConfigurationFrame, ConfigurationFrame, pmu_data_size, phasor_size, analog_size,
  freq_dfreq_size, calc_data_frame_size,
}
use pmu_data_analytics.Frames.Config.Sizes.{sizes, add_data_sizes-sizes}
use pmu_data_analytics.Frames.Channels.{
  ChannelDataType, phasor_float, phasor_fixed, analog_float, analog_fixed, digital, freq_float,
  freq_fixed, dfreq_float, dfreq_fixed, ChannelInfo, ChannelState, insert_channel, insert_channels,
  phasor_type, analog_type, freq_type, dfreq_type, insert_pmu, insert_pmus, get_column_names,
  get_channel_map,
}
use pmu_data_analytics.Frames.Channels.Drift.{insert_channels-offset}

-- The bytes of a channel of this type.
abbrev pub width_of : ChannelDataType → ℕ
width_of phasor_float = 8
width_of phasor_fixed = 4
width_of analog_float = 4
width_of freq_float = 4
width_of dfreq_float = 4
width_of analog_fixed = 2
width_of freq_fixed = 2
width_of dfreq_fixed = 2
width_of digital = 2

-- A channel of its type's width that lies within a frame.
pub record FitsFrame (frame_size : ℕ) (info : ChannelInfo) : Type 0 where
  pub width : info.size ≡ width_of info.data_type
  pub within : info.offset + info.size ≤ frame_size

-- The channels so far end where the next one would start.
pub record AreWithin (state : ChannelState) : Type 0 where
  pub all_fit : Entries (FitsFrame (state.1 + 14)) state.0

FitsFrame-more :
    (m n : ℕ) (entries : List (String × ChannelInfo))
    → m ≤ n
    → Entries (FitsFrame m) entries
    → Entries (FitsFrame n) entries
FitsFrame-more m n entries l h =
    Entries-map (FitsFrame m) (FitsFrame n) entries
      (λ info fits. record { width = fits.width; within = omega (arith, fits.within, l) }) h

insert_channel-AreWithin :
    (t : ChannelDataType) (size : ℕ) (name : String) (state : ChannelState)
    → size ≡ width_of t
    → AreWithin state
    → AreWithin (insert_channel t size name state)
insert_channel-AreWithin t size name (entries, offset) e h = record {
  all_fit =
      Entries-insert (FitsFrame (offset + size + 14)) name _ entries
        (record { width = e; within = omega arith })
        (FitsFrame-more (offset + 14) (offset + size + 14) entries (omega arith) h.all_fit);
}

insert_channels-AreWithin :
    (t : ChannelDataType) (size : ℕ) (names : List String) (state : ChannelState)
    → size ≡ width_of t
    → AreWithin state
    → AreWithin (insert_channels t size names state)
unfolding insert_channels
insert_channels-AreWithin t size [] state e h = h
insert_channels-AreWithin t size (name ∷ names) state e h =
    insert_channels-AreWithin t size names (insert_channel t size name state) e
      (insert_channel-AreWithin t size name state e h)

pub phasor_width : (c : PmuConfigurationFrame) → phasor_size c ≡ width_of (phasor_type c)
unfolding phasor_size
phasor_width c = ground arith

analog_width : (c : PmuConfigurationFrame) → analog_size c ≡ width_of (analog_type c)
unfolding analog_size
analog_width c = ground arith

freq_width : (c : PmuConfigurationFrame) → freq_dfreq_size c ≡ width_of (freq_type c)
unfolding freq_dfreq_size
freq_width c = ground arith

dfreq_width : (c : PmuConfigurationFrame) → freq_dfreq_size c ≡ width_of (dfreq_type c)
unfolding freq_dfreq_size
dfreq_width c = ground arith

times_taken : (size n : ℕ) (names : List String) → size * length (take n names) ≤ size * n
times_taken size n names = mul-le-mul_left size (omega (arith, length-take n names))

module _ (text : Bytes → String) (full_name : String → ℕ → String → String) where
  insert_pmu-AreWithin :
      (c : PmuConfigurationFrame) (state : ChannelState)
      → AreWithin state
      → AreWithin (insert_pmu text full_name c state)
  unfolding insert_pmu
  insert_pmu-AreWithin c state h = insert_channels-AreWithin digital 2 _ _ refl (
      insert_channels-AreWithin (analog_type c) (analog_size c) _ _ (analog_width c) (
        insert_channel-AreWithin (dfreq_type c) (freq_dfreq_size c) _ _ (dfreq_width c) (
          insert_channel-AreWithin (freq_type c) (freq_dfreq_size c) _ _ (freq_width c) (
            insert_channels-AreWithin (phasor_type c) (phasor_size c) _ state (phasor_width c) h))))

  -- With fewer names than channels the offset only falls behind.
  insert_pmu-offset_le :
      (c : PmuConfigurationFrame) (state : ChannelState)
      → (insert_pmu text full_name c state).1 + 2 ≤ state.1 + pmu_data_size c
  unfolding insert_pmu pmu_data_size
  insert_pmu-offset_le c state =
      let names : List String = get_column_names text full_name c in
      rw
        (
          insert_channels-offset digital 2,
          insert_channels-offset (analog_type c) (analog_size c),
          insert_channels-offset (phasor_type c) (phasor_size c),
        )
        (omega (
          arith,
          times_taken (phasor_size c) c.phnmr names,
          times_taken (analog_size c) c.annmr (drop c.phnmr names),
          times_taken 2 c.dgnmr (drop (c.phnmr + c.annmr) names),
        ))

  insert_pmus-AreWithin :
      (cs : List PmuConfigurationFrame) (state : ChannelState)
      → AreWithin state
      → AreWithin (insert_pmus text full_name cs state)
  unfolding insert_pmus
  insert_pmus-AreWithin [] state h = h
  insert_pmus-AreWithin (c ∷ cs) state h =
      insert_pmus-AreWithin cs (insert_pmu text full_name c state) (insert_pmu-AreWithin c state h)

  insert_pmus-offset_le :
      (cs : List PmuConfigurationFrame) (state : ChannelState)
      → (insert_pmus text full_name cs state).1 ≤ state.1 + sizes cs
  unfolding insert_pmus sizes
  insert_pmus-offset_le [] state = omega arith
  insert_pmus-offset_le (c ∷ cs) state = omega (
    arith,
    insert_pmus-offset_le cs (insert_pmu text full_name c state),
    insert_pmu-offset_le c state,
  )

  -- Every channel in the channel map of a configuration has the size of its type, and ends within a
  -- data frame of the size that the configuration announces.
  pub get_channel_map-fits :
      (config : ConfigurationFrame)
      → Entries (FitsFrame (calc_data_frame_size config)) (get_channel_map text full_name config)
  unfolding get_channel_map calc_data_frame_size
  get_channel_map-fits config =
      let start : ChannelState = ([], 2) in
      FitsFrame-more ((insert_pmus text full_name config.pmu_configs start).1 + 14) _ _
        (omega (
          arith,
          insert_pmus-offset_le config.pmu_configs start,
          add_data_sizes-sizes 16 config.pmu_configs,
        ))
        (insert_pmus-AreWithin config.pmu_configs start (record { all_fit = tt })).all_fit
