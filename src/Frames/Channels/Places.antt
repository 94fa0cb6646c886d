-- ===== src/Frames/Channels/Places.antt =====
-- Where `get_channel_map` places the channels of a PMU.
use Prim.Native.String.{String}
use text.Mathlib.Text.{◌==◌}
use text.Mathlib.TextEquality.{eq_iff}
use pmu_data_analytics.Base.{
  ℕ, zero, suc, ◌+◌, ◌*◌, ◌-◌, ◌<◌, ◌≡◌, refl, sym, subst, ap, ◌∙◌, false, List, [], ◌∷◌, ◌++◌,
  Option, some, take, take_all, drop, drop-drop, length, get_elem?, All, arith,
}
use pmu_data_analytics.Base.Bytes.{Bytes}
use pmu_data_analytics.Base.Maps.{lookup, lookup-insert}
use pmu_data_analytics.Frames.Config.{
  PmuConfigurationFrame, ConfigurationFrame, calc_data_frame_size, phasor_size, analog_size,
}
use pmu_data_analytics.Frames.Config.Sizes.{add_data_sizes-sizes}
use pmu_data_analytics.Frames.Channels.{
  ChannelDataType, ChannelInfo, digital, ChannelState, insert_channel, insert_channels, phasor_type,
  analog_type, insert_pmu, insert_pmus, get_column_names, get_channel_map,
}
use pmu_data_analytics.Frames.Channels.Drift.{HasNames, insert_pmus-offset}

-- None of the names is this one.
abbrev pub Without : String → List String → Type 0
Without name = All (λ other. (other == name) ≡ false)

Without-take :
    (name : String) (n : ℕ) (names : List String) → Without name names → Without name (take n names)
Without-take name zero names h = tt
Without-take name (suc n) [] h = tt
Without-take name (suc n) (x ∷ names) h = (h.0, Without-take name n names h.1)

Without-drop :
    (name : String) (n : ℕ) (names : List String) → Without name names → Without name (drop n names)
Without-drop name zero names h = h
Without-drop name (suc n) [] h = tt
Without-drop name (suc n) (x ∷ names) h = Without-drop name n names h.1

lookup-insert_channels_absent :
    (name : String) (t : ChannelDataType) (size : ℕ) (names : List String) (state : ChannelState)
    → Without name names
    → lookup name (insert_channels t size names state).0 ≡ lookup name state.0
unfolding insert_channels
lookup-insert_channels_absent name t size [] state h = refl
lookup-insert_channels_absent name t size (x ∷ names) state h =
    lookup-insert_channels_absent name t size names (insert_channel t size x state) h.1
    ∙ lookup-insert x name _ state.0
    ∙ rw h.0

-- The `k`-th of the names, if it does not occur behind that place.
lookup-insert_channels :
    (name : String) (t : ChannelDataType) (size k : ℕ) (names : List String) (state : ChannelState)
    → get_elem? names k ≡ some name
    → Without name (drop (suc k) names)
    → lookup name (insert_channels t size names state).0
      ≡ some (record { data_type = t; offset = state.1 + size * k + 14; size = size })
unfolding insert_channels
lookup-insert_channels name t size k [] state e h = cc
lookup-insert_channels name t size zero (x ∷ names) state e h =
    let same : x ≡ name = cc in
    let info : ℕ → Option ChannelInfo =
      λ o. some (record { data_type = t; offset = o; size = size }) in
    lookup-insert_channels_absent name t size names (insert_channel t size x state) h
    ∙ lookup-insert x name _ state.0
    ∙ rw ((eq_iff x name).1 same)
        (ap info {x = state.1 + 14} {y = state.1 + size * 0 + 14} (omega arith))
lookup-insert_channels name t size (suc k) (x ∷ names) state e h =
    lookup-insert_channels name t size k names (insert_channel t size x state) e h
    ∙ ap (λ (o : ℕ). some (record { data_type = t; offset = o; size = size }))
        {x = state.1 + size + size * k + 14} {y = state.1 + size * suc k + 14} (omega arith)

get_elem?-take {ℓ} :
    {A : Type ℓ} (n k : ℕ) (xs : List A) → k < n → get_elem? (take n xs) k ≡ get_elem? xs k
get_elem?-take zero k xs h = absurd (omega arith)
get_elem?-take (suc n) k [] h = refl
get_elem?-take (suc n) zero (x ∷ xs) h = refl
get_elem?-take (suc n) (suc k) (x ∷ xs) h = get_elem?-take n k xs (omega arith)

drop-take {ℓ} : {A : Type ℓ} (k n : ℕ) (xs : List A) → drop k (take n xs) ≡ take (n - k) (drop k xs)
drop-take zero n xs = ap (λ m. take m xs) {x = n} {y = n - 0} (omega arith)
drop-take (suc k) zero xs = ap (λ m. take m (drop (suc k) xs)) {x = 0} {y = 0 - suc k} (omega arith)
drop-take (suc k) (suc n) [] = sym (take_all (suc n - suc k) [] (omega arith))
drop-take (suc k) (suc n) (x ∷ xs) =
    drop-take k n xs ∙ ap (λ m. take m (drop k xs)) {x = n - k} {y = suc n - suc k} (omega arith)

module _ (text : Bytes → String) (full_name : String → ℕ → String → String) where
  insert_pmus-append :
      (cs : List PmuConfigurationFrame) (c : PmuConfigurationFrame) (state : ChannelState)
      → insert_pmus text full_name (cs ++ (c ∷ [])) state
        ≡ insert_pmu text full_name c (insert_pmus text full_name cs state)
  unfolding insert_pmus
  insert_pmus-append [] c state = refl
  insert_pmus-append (d ∷ cs) c state = insert_pmus-append cs c (insert_pmu text full_name d state)

  behind :
      (name : String) (k n m : ℕ) (names : List String)
      → k < m
      → Without name (drop (suc k) names)
      → Without name (take n (drop m names))
  behind name k n m names l h = Without-take name n (drop m names) (
      subst (Without name)
        (drop-drop (suc k) (m - suc k) names
          ∙ ap (λ i. drop i names) {x = suc k + (m - suc k)} {y = m} (omega arith))
        (Without-drop name (m - suc k) (drop (suc k) names) h))

  -- A phasor's channel, in the state that the PMU is added to.
  lookup-insert_pmu :
      (c : PmuConfigurationFrame) (state : ChannelState) (k : ℕ) (name : String)
      → k < c.phnmr
      → get_elem? (get_column_names text full_name c) k ≡ some name
      → Without name (drop (suc k) (get_column_names text full_name c))
      → (full_name (text c.stn) c.idcode "FREQ" == name) ≡ false
      → (full_name (text c.stn) c.idcode "DFREQ" == name) ≡ false
      → lookup name (insert_pmu text full_name c state).0
        ≡ some (record {
          data_type = phasor_type c;
          offset = state.1 + phasor_size c * k + 14;
          size = phasor_size c;
        })
  unfolding insert_pmu
  lookup-insert_pmu c state k name l e h freq dfreq =
      let names : List String = get_column_names text full_name c in
      lookup-insert_channels_absent name digital 2 (take c.dgnmr (drop (c.phnmr + c.annmr) names)) _
        (behind name k c.dgnmr (c.phnmr + c.annmr) names (omega arith) h)
      ∙ lookup-insert_channels_absent name (analog_type c) (analog_size c)
          (take c.annmr (drop c.phnmr names)) _ (behind name k c.annmr c.phnmr names l h)
      ∙ lookup-insert (full_name (text c.stn) c.idcode "DFREQ") name _ _
      ∙ rw dfreq (
          lookup-insert (full_name (text c.stn) c.idcode "FREQ") name _ _
          ∙ rw freq (
              lookup-insert_channels name (phasor_type c) (phasor_size c) k (take c.phnmr names)
                state (get_elem?-take c.phnmr k names l ∙ e)
                (subst (Without name) (sym (drop-take (suc k) c.phnmr names))
                  (Without-take name (c.phnmr - suc k) (drop (suc k) names) h))))

  -- The channel map of a configuration whose last PMU is `c`, behind the PMUs `cs` that have a
  -- name for each channel, has the `k`-th phasor of `c` under its name, with its type and size,
  -- where that name is not among the later names of `c` nor that of its FREQ or DFREQ. The
  -- offset, with 2 bytes added for each of the PMUs `cs`, is where the phasor stands in the data
  -- frame.
  pub get_channel_map-phasor :
      (config : ConfigurationFrame) (cs : List PmuConfigurationFrame) (c : PmuConfigurationFrame)
      (k : ℕ) (name : String)
      → config.pmu_configs ≡ cs ++ (c ∷ [])
      → All (HasNames text full_name) cs
      → k < c.phnmr
      → get_elem? (get_column_names text full_name c) k ≡ some name
      → Without name (drop (suc k) (get_column_names text full_name c))
      → (full_name (text c.stn) c.idcode "FREQ" == name) ≡ false
      → (full_name (text c.stn) c.idcode "DFREQ" == name) ≡ false
      → (info : ChannelInfo) × (lookup name (get_channel_map text full_name config) ≡ some info)
        × (info.data_type ≡ phasor_type c)
        × (info.size ≡ phasor_size c)
        × (info.offset + 2 * length cs
            ≡ calc_data_frame_size (record config { pmu_configs = cs }) + phasor_size c * k)
  unfolding get_channel_map calc_data_frame_size
  get_channel_map-phasor config cs c k name split enough l e h freq dfreq =
      let state : ChannelState = insert_pmus text full_name cs ([], 2) in
      (
        record {
          data_type = phasor_type c;
          offset = state.1 + phasor_size c * k + 14;
          size = phasor_size c;
        },
        ap (λ ps. lookup name (insert_pmus text full_name ps ([], 2)).0) split
            ∙ ap (λ (reached : ChannelState). lookup name reached.0)
                (insert_pmus-append cs c ([], 2))
            ∙ lookup-insert_pmu c state k name l e h freq dfreq,
        refl,
        refl,
        omega (
          arith,
          insert_pmus-offset text full_name cs ([], 2) enough,
          add_data_sizes-sizes 16 cs,
        ),
      )
