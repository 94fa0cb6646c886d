-- ===== src/Frames/Channels/Drift.antt =====
-- The offset that the loop of `get_channel_map` keeps, against the sizes of the PMUs' data.
use Prim.Native.String.{String}
use pmu_data_analytics.Base.{
  ℕ, ◌+◌, ◌*◌, ◌≤◌, ◌≡◌, List, [], ◌∷◌, take, drop, length, length-take, length-drop, All, arith,
}
use pmu_data_analytics.Base.Bytes.{Bytes}
use pmu_data_analytics.Frames.Config.{
  PmuConfigurationFrame, pmu_data_size, phasor_size, analog_size,
}
use pmu_data_analytics.Frames.Config.Sizes.{sizes}
use pmu_data_analytics.Frames.Channels.{
  ChannelDataType, digital, ChannelState, insert_channel, phasor_type, analog_type, insert_channels,
  insert_pmu, insert_pmus, get_column_names,
}

pub insert_channels-offset :
    (t : ChannelDataType) (size : ℕ) (names : List String) (state : ChannelState)
    → (insert_channels t size names state).1 ≡ state.1 + size * length names
unfolding insert_channels
insert_channels-offset t size [] state = omega arith
insert_channels-offset t size (name ∷ names) (m, offset) =
    omega (arith, insert_channels-offset t size names (insert_channel t size name (m, offset)))

module _ (text : Bytes → String) (full_name : String → ℕ → String → String) where
  -- There is a name for each channel.
  abbrev pub HasNames : PmuConfigurationFrame → Type 0
  HasNames c = c.phnmr + c.annmr + c.dgnmr ≤ length (get_column_names text full_name c)

  insert_pmu-offset :
      (c : PmuConfigurationFrame) (state : ChannelState)
      → HasNames c
      → (insert_pmu text full_name c state).1 + 2 ≡ state.1 + pmu_data_size c
  unfolding insert_pmu pmu_data_size
  insert_pmu-offset c state h =
      let names : List String = get_column_names text full_name c in
      let l₁ : length (take c.phnmr names) ≡ c.phnmr =
        omega (arith, h, length-take c.phnmr names) in
      let l₂ : length (take c.annmr (drop c.phnmr names)) ≡ c.annmr =
        omega (arith, h, length-take c.annmr (drop c.phnmr names), length-drop c.phnmr names) in
      let l₃ : length (take c.dgnmr (drop (c.phnmr + c.annmr) names)) ≡ c.dgnmr = omega (
        arith,
        h,
        length-take c.dgnmr (drop (c.phnmr + c.annmr) names),
        length-drop (c.phnmr + c.annmr) names,
      ) in
      rw
        (
          insert_channels-offset digital 2,
          insert_channels-offset (analog_type c) (analog_size c),
          insert_channels-offset (phasor_type c) (phasor_size c),
          l₁,
          l₂,
          l₃,
        )
        (omega arith)

  pub insert_pmus-offset :
      (cs : List PmuConfigurationFrame) (state : ChannelState)
      → All HasNames cs
      → (insert_pmus text full_name cs state).1 + 2 * length cs ≡ state.1 + sizes cs
  unfolding insert_pmus sizes
  insert_pmus-offset [] state h = omega arith
  insert_pmus-offset (c ∷ cs) state h = omega (
    arith,
    insert_pmus-offset cs (insert_pmu text full_name c state) h.1,
    insert_pmu-offset c state h.0,
  )
