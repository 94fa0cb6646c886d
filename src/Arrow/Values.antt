-- ===== src/Arrow/Values.antt =====
-- The values in the columns, for frames that hold them in the layout of the standard.
use pmu_data_analytics.Base.{
  ℕ, ◌+◌, ◌≤◌, ◌<◌, ◌≡◌, refl, sym, ap, subst, ◌∙◌, Run, ok, ◌>>=◌, le→ltb, le→leb, ne→==, List, [],
  ◌∷◌, ◌++◌, map, length, concat, length-append, All, ℤ, append-nil, arith,
}
use pmu_data_analytics.Base.Bytes.{Bytes, u16_bytes, slice}
use pmu_data_analytics.Base.Bytes.Cursor.{At, At-zero, At-append, slice-At}
use pmu_data_analytics.Base.Chunks.{chunks-concat, u16_of_chunk, u32_of_chunk}
use pmu_data_analytics.Frames.Data.{F32}
use pmu_data_analytics.Frames.Prefix.RoundTrip.{u16_round_trip, u32_round_trip}
use pmu_data_analytics.Parser.Data.Layout.{IsI16}
use pmu_data_analytics.Parser.Data.RoundTrip.{i16_round_trip}
use pmu_data_analytics.Frames.Values.{f32_of_chunk, i16_of_chunk}
use pmu_data_analytics.Frames.Values.RoundTrip.{IsF32, IsU16}
use pmu_data_analytics.Frames.Channels.{
  ChannelDataType, phasor_float, phasor_fixed, analog_float, analog_fixed, digital, freq_float,
  freq_fixed, dfreq_float, dfreq_fixed, ChannelInfo,
}
use pmu_data_analytics.Arrow.Layout.{Value, put_f32, put_i16, put_value, IsValue, columns, HoldsAt}
use pmu_data_analytics.Arrow.{
  Array, frames_of, extract_frames, extract_values, read_pair, extract_by_type,
  extract_channel_values,
}

module _ {A : Type 0} (read : Bytes → Run A) (put : A → Bytes) (n : ℕ) (info : ChannelInfo) where
  -- A frame with a value that reads back.
  abbrev pub IsRead : Bytes × A → Type 0
  IsRead row = HoldsAt n info row.0 (put row.1) × (read (put row.1) ≡ ok row.1)

  extract_frames-put :
      (rows : List (Bytes × A))
      → info.offset + info.size ≤ n
      → All IsRead rows
      → extract_frames read n info (map (λ (row : Bytes × A). row.0) rows)
        ≡ ok (map (λ (row : Bytes × A). row.1) rows)
  unfolding extract_frames
  extract_frames-put [] l h = refl
  extract_frames-put ((frame, value) ∷ rows) l h =
      let ((len, width, rest, at), back) = h.0 in
      rw
        (
          le→ltb (length frame) n (omega (arith, len)),
          le→leb (info.offset + info.size) (length frame) (omega (arith, len)),
          slice-At {E = ⊥} frame info.offset info.size (put value) rest at width,
          back,
          extract_frames-put rows l h.1,
        )
        refl

  rows-length :
      (rows : List (Bytes × A))
      → All IsRead rows
      → All (λ frame. length frame ≡ n) (map (λ (row : Bytes × A). row.0) rows)
  rows-length [] h = tt
  rows-length (row ∷ rows) h = (h.0.0.0, rows-length rows h.1)

  extract_values-put :
      (rows : List (Bytes × A))
      → 0 < n
      → info.offset + info.size ≤ n
      → All IsRead rows
      → extract_values read n info (concat (map (λ (row : Bytes × A). row.0) rows))
        ≡ ok (map (λ (row : Bytes × A). row.1) rows)
  unfolding extract_values frames_of
  extract_values-put rows p l h =
      rw
        (
          ne→== n 0 (λ zero_size. omega arith),
          chunks-concat n (map (λ (row : Bytes × A). row.0) rows) p (rows-length rows h),
          extract_frames-put rows l h,
        )
        refl

f32-back : (x : F32) → IsF32 x → f32_of_chunk (put_f32 x) ≡ ok x
unfolding u32_of_chunk
f32-back x h = ap (λ w. ok (record { bits = w })) (u32_round_trip x.bits h)

i16-back : (z : ℤ) → IsI16 z → i16_of_chunk (put_i16 z) ≡ ok z
unfolding u16_of_chunk
i16-back z h = ap ok (i16_round_trip z h)

u16-back : (w : ℕ) → IsU16 w → u16_of_chunk {E = ⊥} (u16_bytes w) ≡ ok w
unfolding u16_of_chunk
u16-back w h = ap ok (u16_round_trip w h)

-- Both halves of a pair.
pair-back :
    {A : Type 0} (read : Bytes → Run A) (put : A → Bytes) (width : ℕ) (x y : A)
    → length (put x) ≡ width
    → length (put y) ≡ width
    → read (put x) ≡ ok x
    → read (put y) ≡ ok y
    → read_pair read width (put x ++ put y) ≡ ok (x, y)
pair-back read put width x y lx ly hx hy =
    let both : Bytes = put x ++ put y in
    let len : length both ≡ width + width = omega (arith, length-append (put x) (put y)) in
    let low : slice {E = ⊥} both 0 width ≡ ok (put x) =
      ap (slice {E = ⊥} both 0) {x = width} {y = 0 + width} (omega arith)
      ∙ slice-At {E = ⊥} both 0 width (put x) (put y) (At-zero both) lx in
    let at : At both width (put y ++ []) = subst (At both width) (sym (append-nil (put y))) (
      subst (λ i. At both i (put y)) {x = 0 + width} {y = width} (omega arith)
        (At-append both 0 width (put x) (put y) (At-zero both) lx)) in
    rw (low, hx, len, slice-At {E = ⊥} both width width (put y) [] at ly, hy) refl

-- The value of a frame is read back from its bytes.
abbrev pub IsRow : ℕ → ChannelInfo → (t : ChannelDataType) → Bytes × Value t → Type 0
IsRow n info t row = HoldsAt n info row.0 (put_value t row.1) × IsValue t row.1

module _ (n : ℕ) (info : ChannelInfo) (p : 0 < n) (l : info.offset + info.size ≤ n) where
  rows-IsRead :
      {A : Type 0} (read : Bytes → Run A) (put : A → Bytes) (IsGood : A → Type 0)
      (rows : List (Bytes × A))
      → ((value : A) → IsGood value → read (put value) ≡ ok value)
      → All (λ (row : Bytes × A). HoldsAt n info row.0 (put row.1) × IsGood row.1) rows
      → All (IsRead read put n info) rows
  rows-IsRead read put IsGood [] back h = tt
  rows-IsRead read put IsGood (row ∷ rows) back h =
      ((h.0.0, back row.1 h.0.1), rows-IsRead read put IsGood rows back h.1)

  -- One column, by how it is read.
  column :
      {A : Type 0} (read : Bytes → Run A) (put : A → Bytes) (IsGood : A → Type 0)
      (result : List A → List Array) (rows : List (Bytes × A))
      → ((value : A) → IsGood value → read (put value) ≡ ok value)
      → All (λ (row : Bytes × A). HoldsAt n info row.0 (put row.1) × IsGood row.1) rows
      → (extract_values read n info (concat (map (λ (row : Bytes × A). row.0) rows)) >>= λ values.
          ok (result values))
        ≡ ok (result (map (λ (row : Bytes × A). row.1) rows))
  column read put IsGood result rows back h =
      rw (extract_values-put read put n info rows p l (rows-IsRead read put IsGood rows back h))
        refl

  pub extract_by_type-put :
      (t : ChannelDataType) (rows : List (Bytes × Value t))
      → All (IsRow n info t) rows
      → extract_by_type t (concat (map (λ (row : Bytes × Value t). row.0) rows)) n info
        ≡ ok (columns t (map (λ (row : Bytes × Value t). row.1) rows))
  extract_by_type-put phasor_float rows h =
      column (read_pair f32_of_chunk 4) (put_value phasor_float) (IsValue phasor_float)
        (columns phasor_float) rows
        (λ v good.
          pair-back f32_of_chunk put_f32 4 v.0 v.1 refl refl (f32-back v.0 good.0)
            (f32-back v.1 good.1))
        h
  extract_by_type-put phasor_fixed rows h =
      column (read_pair i16_of_chunk 2) (put_value phasor_fixed) (IsValue phasor_fixed)
        (columns phasor_fixed) rows
        (λ v good.
          pair-back i16_of_chunk put_i16 2 v.0 v.1 refl refl (i16-back v.0 good.0)
            (i16-back v.1 good.1))
        h
  extract_by_type-put analog_float rows h =
      column f32_of_chunk put_f32 IsF32 (columns analog_float) rows f32-back h
  extract_by_type-put freq_float rows h =
      column f32_of_chunk put_f32 IsF32 (columns freq_float) rows f32-back h
  extract_by_type-put dfreq_float rows h =
      column f32_of_chunk put_f32 IsF32 (columns dfreq_float) rows f32-back h
  extract_by_type-put analog_fixed rows h =
      column i16_of_chunk put_i16 IsI16 (columns analog_fixed) rows i16-back h
  extract_by_type-put freq_fixed rows h =
      column i16_of_chunk put_i16 IsI16 (columns freq_fixed) rows i16-back h
  extract_by_type-put dfreq_fixed rows h =
      column i16_of_chunk put_i16 IsI16 (columns dfreq_fixed) rows i16-back h
  extract_by_type-put digital rows h =
      column u16_of_chunk u16_bytes IsU16 (columns digital) rows u16-back h

  -- Frames of the frame size, each with a value of the channel's type whose numbers fit their widths
  -- and whose bytes by the standard stand at the channel's place, within the frame: from the buffer of
  -- these frames, one behind the other, the channel's columns are extracted with these values in order.
  pub extract_channel_values-put :
      (rows : List (Bytes × Value info.data_type))
      → All (IsRow n info info.data_type) rows
      → extract_channel_values
          (concat (map (λ (row : Bytes × Value info.data_type). row.0) rows))
          n
          info
        ≡ ok (columns info.data_type (map (λ (row : Bytes × Value info.data_type). row.1) rows))
  unfolding extract_channel_values
  extract_channel_values-put rows h = extract_by_type-put info.data_type rows h
