-- ===== src/Arrow/Shape.antt =====
-- The shape of the arrays: their types against the schema, and their lengths.
use Prim.Native.String.{String}
use pmu_data_analytics.Base.{
  ℕ, ◌+◌, ◌/◌, ◌≤◌, ◌<◌, ◌≡◌, refl, sym, ap, ap₂, ◌∙◌, subst, Run, ok, ◌>>=◌, List, [], ◌∷◌, map,
  length, length-map, All,
}
use pmu_data_analytics.Base.Bytes.{Bytes}
use pmu_data_analytics.Base.Chunks.{u16_of_chunk}
use pmu_data_analytics.Frames.Values.{f32_of_chunk, i16_of_chunk}
use pmu_data_analytics.Frames.Channels.{
  ChannelDataType, phasor_float, phasor_fixed, analog_float, analog_fixed, digital, freq_float,
  freq_fixed, dfreq_float, dfreq_fixed, ChannelInfo,
}
use pmu_data_analytics.Frames.Channels.Fits.{width_of, FitsFrame}
use pmu_data_analytics.Arrow.{
  DataType, timestamp_type, float32_type, int16_type, uint16_type, Field, Array, timestamp_array,
  float32_array, int16_array, uint16_array, fields_of, extract_values, read_pair, firsts, seconds,
  extract_by_type, extract_channel_values,
}
use pmu_data_analytics.Arrow.Loops.{
  Reads, u16_of_chunk-Reads, f32_of_chunk-Reads, i16_of_chunk-Reads, read_pair-Reads,
  extract_values-ok,
}

abbrev pub array_type : Array → DataType
array_type (timestamp_array xs) = timestamp_type
array_type (float32_array xs) = float32_type
array_type (int16_array xs) = int16_type
array_type (uint16_array xs) = uint16_type

abbrev pub array_length : Array → ℕ
array_length (timestamp_array xs) = length xs
array_length (float32_array xs) = length xs
array_length (int16_array xs) = length xs
array_length (uint16_array xs) = length xs

abbrev pub types_of : List Array → List DataType
types_of = map array_type

abbrev pub field_types : List Field → List DataType
field_types = map (λ field. field.data_type)

-- Arrays of the types of these fields, in their order, with this many rows each.
pub record HasShape (rows : ℕ) (fields : List Field) (arrays : List Array) : Type 0 where
  pub types : types_of arrays ≡ field_types fields
  pub all_rows : All (λ array. array_length array ≡ rows) arrays

-- Arrays that a run returns, of this shape.
abbrev pub Shaped : ℕ → List Field → Run (List Array) → Type 0
Shaped rows fields run = (arrays : List Array) × (run ≡ ok arrays) × HasShape rows fields arrays

module _ (buffer : Bytes) (n : ℕ) (info : ChannelInfo) (p : 0 < n) (name : String) where
  one_array :
      {A : Type 0} (read : Bytes → Run A) (wrap : List A → Array) (w : ℕ) (t : DataType)
      → Reads read w
      → info.size ≡ w
      → info.offset + info.size ≤ n
      → ((values : List A) → array_type (wrap values) ≡ t)
      → ((values : List A) → array_length (wrap values) ≡ length values)
      → Shaped
          (length buffer / n)
          (record { name = name; data_type = t } ∷ [])
          (do values ← extract_values read n info buffer; ok (wrap values ∷ []))
  one_array read wrap w t h e l typed len =
      let (values, run, count) =
        extract_values-ok read n info buffer (subst (Reads read) (sym e) h) l p in
      (
        wrap values ∷ [],
        rw run refl,
        record { types = ap (λ d. d ∷ []) (typed values); all_rows = (len values ∙ count, tt) },
      )

  two_arrays :
      {A : Type 0} (read : Bytes → Run A) (wrap : List A → Array) (w : ℕ) (t : DataType)
      (first second : String)
      → Reads read w
      → info.size ≡ w + w
      → info.offset + info.size ≤ n
      → ((values : List A) → array_type (wrap values) ≡ t)
      → ((values : List A) → array_length (wrap values) ≡ length values)
      → Shaped
          (length buffer / n)
          (record { name = first; data_type = t } ∷ record { name = second; data_type = t } ∷ [])
          (do
            values ← extract_values (read_pair read w) n info buffer
            ok (wrap (firsts values) ∷ wrap (seconds values) ∷ []))
  two_arrays read wrap w t first second h e l typed len =
      let (values, run, count) =
        extract_values-ok (read_pair read w) n info buffer
          (subst (Reads (read_pair read w)) (sym e) (read_pair-Reads read w h)) l p in
      (
        wrap (firsts values) ∷ wrap (seconds values) ∷ [],
        rw run refl,
        record {
          types = ap₂ (λ c d. c ∷ d ∷ []) (typed (firsts values)) (typed (seconds values));
          all_rows = (
            len (firsts values) ∙ length-map (λ pair. pair.0) values ∙ count,
            (len (seconds values) ∙ length-map (λ pair. pair.1) values ∙ count, tt),
          );
        },
      )

  floats :
      info.size ≡ 4
      → info.offset + info.size ≤ n
      → Shaped
          (length buffer / n)
          (record { name = name; data_type = float32_type } ∷ [])
          (do values ← extract_values f32_of_chunk n info buffer; ok (float32_array values ∷ []))
  floats e l =
      one_array f32_of_chunk float32_array 4 float32_type f32_of_chunk-Reads e l (λ v. refl)
        (λ v. refl)

  integers :
      info.size ≡ 2
      → info.offset + info.size ≤ n
      → Shaped
          (length buffer / n)
          (record { name = name; data_type = int16_type } ∷ [])
          (do values ← extract_values i16_of_chunk n info buffer; ok (int16_array values ∷ []))
  integers e l =
      one_array i16_of_chunk int16_array 2 int16_type i16_of_chunk-Reads e l (λ v. refl) (λ v. refl)

  extract_by_type-Shaped :
      (t : ChannelDataType)
      → info.size ≡ width_of t
      → info.offset + info.size ≤ n
      → Shaped (length buffer / n) (fields_of name t) (extract_by_type t buffer n info)
  extract_by_type-Shaped phasor_float e l =
      two_arrays f32_of_chunk float32_array 4 float32_type _ _ f32_of_chunk-Reads e l (λ v. refl)
        (λ v. refl)
  extract_by_type-Shaped phasor_fixed e l =
      two_arrays i16_of_chunk int16_array 2 int16_type _ _ i16_of_chunk-Reads e l (λ v. refl)
        (λ v. refl)
  extract_by_type-Shaped analog_float e l = floats e l
  extract_by_type-Shaped freq_float e l = floats e l
  extract_by_type-Shaped dfreq_float e l = floats e l
  extract_by_type-Shaped analog_fixed e l = integers e l
  extract_by_type-Shaped freq_fixed e l = integers e l
  extract_by_type-Shaped dfreq_fixed e l = integers e l
  extract_by_type-Shaped digital e l =
      one_array u16_of_chunk uint16_array 2 uint16_type u16_of_chunk-Reads e l (λ v. refl)
        (λ v. refl)

  -- A channel of its type's size that lies within a frame is extracted without a panic: its arrays
  -- have the types of the channel's fields in the schema, in their order, and one row for each whole
  -- frame of the buffer.
  pub extract_channel_values-HasShape :
      FitsFrame n info
      → (arrays : List Array) × (extract_channel_values buffer n info ≡ ok arrays)
        × HasShape (length buffer / n) (fields_of name info.data_type) arrays
  unfolding extract_channel_values
  extract_channel_values-HasShape h = extract_by_type-Shaped info.data_type h.width h.within
