-- ===== src/Arrow/Streams.antt =====
-- The phasors of a stream of data frames, in the columns that the channel map gives.
use Prim.Native.String.{String}
use text.Mathlib.Text.{◌==◌}
use pmu_data_analytics.Base.{
  ℕ, zero, suc, ◌+◌, ◌*◌, ◌<◌, ◌≡◌, refl, sym, ap, subst, ◌∙◌, false, ok, List, [], ◌∷◌, ◌++◌,
  append_assoc, map, length, concat, drop, get_elem?, some, All, arith,
}
use pmu_data_analytics.Base.Bytes.{Bytes, u16_bytes}
use pmu_data_analytics.Base.Bytes.Cursor.{At, At-zero, At-append}
use pmu_data_analytics.Base.Maps.{lookup, Entries-lookup}
use pmu_data_analytics.Frames.Prefix as Prefix
use pmu_data_analytics.Frames.Prefix.RoundTrip.{length-to_hex}
use pmu_data_analytics.Frames.Config.{
  PmuConfigurationFrame, ConfigurationFrame, calc_data_frame_size, phasor_size,
}
use pmu_data_analytics.Frames.Config.Sizes.{calc_data_frame_size-ge}
use pmu_data_analytics.Frames.Data.{PmuFrameType, fixed, floating, DataFrame}
use pmu_data_analytics.Parser.Data.Layout.{put_pmu, put_pmus, put_data_frame}
use pmu_data_analytics.Frames.Channels.{
  ChannelDataType, phasor_float, phasor_fixed, analog_float, analog_fixed, digital, freq_float,
  freq_fixed, dfreq_float, dfreq_fixed, ChannelInfo, phasor_type, get_column_names, get_channel_map,
}
use pmu_data_analytics.Frames.Channels.Places.{Without, get_channel_map-phasor}
use pmu_data_analytics.Frames.Channels.Fits.{
  width_of, FitsFrame, phasor_width, get_channel_map-fits,
}
use pmu_data_analytics.Arrow.{extract_by_type, extract_channel_values}
use pmu_data_analytics.Arrow.Layout.{Value, put_value, IsValue, columns, HoldsAt}
use pmu_data_analytics.Arrow.Values.{IsRow, extract_by_type-put}

length-put_value : (t : ChannelDataType) (v : Value t) → length (put_value t v) ≡ width_of t
length-put_value phasor_float v = refl
length-put_value phasor_fixed v = refl
length-put_value analog_float v = refl
length-put_value freq_float v = refl
length-put_value dfreq_float v = refl
length-put_value analog_fixed v = refl
length-put_value freq_fixed v = refl
length-put_value dfreq_fixed v = refl
length-put_value digital v = refl

-- The `k`-th of blocks of one length.
At-concat :
    {A : Type 0} (buffer : Bytes) (offset width k : ℕ) (put : A → Bytes) (xs : List A) (x : A)
    (rest : Bytes)
    → ((a : A) → length (put a) ≡ width)
    → get_elem? xs k ≡ some x
    → At buffer offset (concat (map put xs) ++ rest)
    → (more : Bytes) × At buffer (offset + width * k) (put x ++ more)
At-concat buffer offset width k put [] x rest h e at = cc
At-concat buffer offset width zero put (y ∷ xs) x rest h e at =
    let same : y ≡ x = cc in
    (
      concat (map put xs) ++ rest,
      subst (λ i. At buffer i (put x ++ (concat (map put xs) ++ rest))) {x = offset}
          {y = offset + width * 0} (omega arith)
          (subst (At buffer offset)
            (append_assoc (put y) (concat (map put xs)) rest
              ∙ ap (λ a. put a ++ (concat (map put xs) ++ rest)) same)
            at),
    )
At-concat buffer offset width (suc k) put (y ∷ xs) x rest h e at =
    let (more, at_end) = At-concat buffer (offset + width) width k put xs x rest h e (
      At-append buffer offset width (put y) (concat (map put xs) ++ rest)
        (subst (At buffer offset) (append_assoc (put y) (concat (map put xs)) rest) at) (h y)) in
    (
      more,
      subst (λ i. At buffer i (put x ++ more)) {x = offset + width + width * k}
          {y = offset + width * suc k} (omega arith) at_end,
    )

abbrev pub phasor_bytes : PmuFrameType → Bytes
phasor_bytes (fixed f) = f.phasors
phasor_bytes (floating f) = f.phasors

-- The phasors stand behind the STAT word.
put_pmu-phasors :
    (f : PmuFrameType) (rest : Bytes)
    → (stat : Bytes) × (more : Bytes) × (put_pmu f rest ≡ stat ++ (phasor_bytes f ++ more))
      × (length stat ≡ 2)
put_pmu-phasors (fixed f) rest = (u16_bytes f.stat, _, refl, refl)
put_pmu-phasors (floating f) rest = (u16_bytes f.stat, _, refl, refl)

-- A data frame of `n` bytes whose first PMU has phasors of the configured type, the `k`-th of them this
-- one.
pub record IsPhasorRow (n : ℕ) (c : PmuConfigurationFrame) (k : ℕ)
    (row : DataFrame × Value (phasor_type c)) : Type 0 where
  pub pmu : PmuFrameType
  pub others : List PmuFrameType
  pub values : List (Value (phasor_type c))
  pub frame_len : length (put_data_frame row.0) ≡ n
  pub first_pmu : row.0.pmu_data ≡ pmu ∷ others
  pub laid_out : phasor_bytes pmu ≡ concat (map (put_value (phasor_type c)) values)
  pub chosen : get_elem? values k ≡ some row.1
  pub fits : IsValue (phasor_type c) row.1

row-At :
    (n : ℕ) (c : PmuConfigurationFrame) (k : ℕ) (row : DataFrame × Value (phasor_type c))
    → IsPhasorRow n c k row
    → (more : Bytes) × At
        (put_data_frame row.0)
        (16 + phasor_size c * k)
        (put_value (phasor_type c) row.1 ++ more)
row-At n c k row h =
    let t : ChannelDataType = phasor_type c in
    let frame : DataFrame = row.0 in
    let buffer : Bytes = put_data_frame frame in
    let (stat, more, split, len) =
      put_pmu-phasors h.pmu (put_pmus h.others (u16_bytes frame.chk)) in
    let at₁ : At buffer (0 + 14) (stat ++ (phasor_bytes h.pmu ++ more)) =
      subst (At buffer (0 + 14)) (ap (λ fs. put_pmus fs (u16_bytes frame.chk)) h.first_pmu ∙ split)
        (At-append buffer 0 14 (Prefix.to_hex frame.prefix)
          (put_pmus frame.pmu_data (u16_bytes frame.chk)) (At-zero buffer)
          (length-to_hex frame.prefix)) in
    let at₂ : At buffer (14 + 2) (concat (map (put_value t) h.values) ++ more) =
      subst (λ bytes. At buffer (14 + 2) (bytes ++ more)) h.laid_out
        (At-append buffer 14 2 stat (phasor_bytes h.pmu ++ more) at₁ len) in
    At-concat buffer 16 (phasor_size c) k (put_value t) h.values row.1 more
      (λ v. length-put_value t v ∙ sym (phasor_width c)) h.chosen at₂

-- The bytes of the frames, one behind the other.
abbrev pub frames_bytes : {V : Type 0} → List (DataFrame × V) → Bytes
frames_bytes rows = concat (map (λ row. put_data_frame row.0) rows)

abbrev with_bytes : {V : Type 0} → List (DataFrame × V) → List (Bytes × V)
with_bytes rows = map (λ row. (put_data_frame row.0, row.1)) rows

with_bytes-frames :
    {V : Type 0} (rows : List (DataFrame × V))
    → map (λ (row : Bytes × V). row.0) (with_bytes rows) ≡ map (λ row. put_data_frame row.0) rows
with_bytes-frames [] = refl
with_bytes-frames (row ∷ rows) =
    ap (λ frames. put_data_frame row.0 ∷ frames) (with_bytes-frames rows)

with_bytes-values :
    {V : Type 0} (rows : List (DataFrame × V))
    → map (λ (row : Bytes × V). row.1) (with_bytes rows) ≡ map (λ (row : DataFrame × V). row.1) rows
with_bytes-values [] = refl
with_bytes-values (row ∷ rows) = ap (λ values. row.1 ∷ values) (with_bytes-values rows)

rows-IsRow :
    (n : ℕ) (c : PmuConfigurationFrame) (k : ℕ) (info : ChannelInfo)
    (rows : List (DataFrame × Value (phasor_type c)))
    → info.offset ≡ 16 + phasor_size c * k
    → info.size ≡ phasor_size c
    → All (IsPhasorRow n c k) rows
    → All (IsRow n info (phasor_type c)) (with_bytes rows)
rows-IsRow n c k info [] o s h = tt
rows-IsRow n c k info (row ∷ rows) o s h =
    let (more, at) = row-At n c k row h.0 in
    let block : Bytes = put_value (phasor_type c) row.1 in
    let held : HoldsAt n info (put_data_frame row.0) block = (
      h.0.frame_len,
      length-put_value (phasor_type c) row.1 ∙ sym (phasor_width c) ∙ sym s,
      more,
      subst (λ i. At (put_data_frame row.0) i (block ++ more)) (sym o) at,
    ) in
    ((held, h.0.fits), rows-IsRow n c k info rows o s h.1)

no_pmu_size :
    (config : ConfigurationFrame) → config.pmu_configs ≡ [] → calc_data_frame_size config ≡ 16
unfolding calc_data_frame_size
no_pmu_size config e = rw e refl

-- A stream of one PMU, with data frames of the size that its configuration announces, whose phasors
-- are laid out by the standard: if a phasor's name is not among the later names of the PMU nor that of
-- its FREQ or DFREQ, then the channel map has the phasor under its name, and from the buffer of the
-- frames, one behind the other, that channel's columns are the phasor's values in order, with their
-- first components in one and their second in the other.
pub extract_channel_values-phasors :
    (text : Bytes → String) (full_name : String → ℕ → String → String) (config : ConfigurationFrame)
    (c : PmuConfigurationFrame) (k : ℕ) (name : String)
    (rows : List (DataFrame × Value (phasor_type c)))
    → config.pmu_configs ≡ c ∷ []
    → k < c.phnmr
    → get_elem? (get_column_names text full_name c) k ≡ some name
    → Without name (drop (suc k) (get_column_names text full_name c))
    → (full_name (text c.stn) c.idcode "FREQ" == name) ≡ false
    → (full_name (text c.stn) c.idcode "DFREQ" == name) ≡ false
    → All (IsPhasorRow (calc_data_frame_size config) c k) rows
    → (info : ChannelInfo) × (lookup name (get_channel_map text full_name config) ≡ some info)
      × (extract_channel_values (frames_bytes rows) (calc_data_frame_size config) info
          ≡ ok (
              columns
                (phasor_type c)
                (map (λ (row : DataFrame × Value (phasor_type c)). row.1) rows)))
unfolding extract_channel_values
extract_channel_values-phasors text full_name config c k name rows one l e h freq dfreq held =
    let n : ℕ = calc_data_frame_size config in
    let (info, found, t, size, offset) =
      get_channel_map-phasor text full_name config [] c k name one tt l e h freq dfreq in
    let place : info.offset ≡ 16 + phasor_size c * k =
      omega (arith, offset, no_pmu_size (record config { pmu_configs = [] }) refl) in
    let fits : FitsFrame n info =
      Entries-lookup (FitsFrame n) name (get_channel_map text full_name config) info
        (get_channel_map-fits text full_name config) found in
    (
      info,
      found,
      ap (λ kind. extract_by_type kind (frames_bytes rows) n info) t
          ∙ ap (λ frames. extract_by_type (phasor_type c) (concat frames) n info)
              (sym (with_bytes-frames rows))
          ∙ extract_by_type-put n info (omega (arith, calc_data_frame_size-ge config)) fits.within
              (phasor_type c) (with_bytes rows) (rows-IsRow n c k info rows place size held)
          ∙ ap (λ values. ok (columns (phasor_type c) values)) (with_bytes-values rows),
    )
