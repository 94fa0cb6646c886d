-- ===== src/BufferServer/Columns.antt =====
-- The arrays that the handler extracts, against the schema.
use Prim.Native.String.{String}
use native.Mathlib.Decide.{dec_lt}
use native.Mathlib.Nat.{div-eq_of_lt, div-eq-sub-div, mod-eq_of_lt, mod-eq-sub-mod}
use pmu_data_analytics.Base.{
  ℕ, zero, suc, ◌+◌, ◌*◌, ◌/◌, ◌%◌, ◌≤◌, ◌<◌, ◌≡◌, refl, sym, ap, ap₂, ◌∙◌, ok, leb, le→leb, lt→leb,
  if◌then◌else◌, ne→==, List, [], ◌∷◌, ◌++◌, map, length, take, drop, length-take, length-drop,
  drop_all, All-append, arith,
}
use pmu_data_analytics.Base.Bytes.{Bytes}
use pmu_data_analytics.Base.Bytes.Bounds.{u32_at-ok}
use pmu_data_analytics.Base.Chunks.{chunks, chunks_fuel}
use pmu_data_analytics.Base.Maps.{Entries}
use pmu_data_analytics.Frames.Channels.{ChannelInfo}
use pmu_data_analytics.Frames.Channels.Fits.{FitsFrame}
use pmu_data_analytics.Arrow.{Field, Array, timestamp_array, fields_of, channel_fields, frames_of}
use pmu_data_analytics.Arrow.Shape.{
  array_type, array_length, HasShape, Shaped, extract_channel_values-HasShape,
}
use pmu_data_analytics.BufferServer.{timestamp_of, timestamps_of, extract_all, arrays_of}

map-append : {A B : Type 0} (f : A → B) (xs ys : List A) → map f (xs ++ ys) ≡ map f xs ++ map f ys
map-append f [] ys = refl
map-append f (x ∷ xs) ys = ap (λ l. f x ∷ l) (map-append f xs ys)

pub HasShape-append :
    (rows : ℕ) (fields more_fields : List Field) (arrays more_arrays : List Array)
    → HasShape rows fields arrays
    → HasShape rows more_fields more_arrays
    → HasShape rows (fields ++ more_fields) (arrays ++ more_arrays)
HasShape-append rows fields more_fields arrays more_arrays h k = record {
  types =
      map-append array_type arrays more_arrays
      ∙ ap₂ ◌++◌ h.types k.types
      ∙ sym (map-append (λ (field : Field). field.data_type) fields more_fields);
  all_rows =
      All-append (λ (array : Array). array_length array ≡ rows) arrays more_arrays h.all_rows
        k.all_rows;
}

-- The channels' arrays have the shape of the channels' fields.
pub extract_all-HasShape :
    (buffer : Bytes) (n : ℕ) (channels : List (String × ChannelInfo))
    → 0 < n
    → Entries (FitsFrame n) channels
    → Shaped (length buffer / n) (channel_fields channels) (extract_all buffer n channels)
unfolding extract_all channel_fields
extract_all-HasShape buffer n [] p h = ([], refl, record { types = refl; all_rows = tt })
extract_all-HasShape buffer n ((name, info) ∷ channels) p h =
    let (arrays, e₁, shape₁) = extract_channel_values-HasShape buffer n info p name h.0 in
    let (more, e₂, shape₂) = extract_all-HasShape buffer n channels p h.1 in
    (
      arrays ++ more,
      rw (e₁, e₂) refl,
      HasShape-append (length buffer / n) (fields_of name info.data_type) (channel_fields channels)
          arrays more shape₁ shape₂,
    )

-- The frames that are long enough for a time.
abbrev pub count_timed : List Bytes → ℕ
count_timed [] = 0
count_timed (frame ∷ frames) =
    let rest = count_timed frames in if leb 14 (length frame) then suc rest else rest

timestamps_of-ok :
    (frames : List Bytes)
    → (timestamps : List ℕ) × (timestamps_of frames ≡ ok timestamps)
      × (length timestamps ≡ count_timed frames)
unfolding timestamps_of timestamp_of
timestamps_of-ok [] = ([], refl, refl)
timestamps_of-ok (frame ∷ frames) =
    let (timestamps, e, count) = timestamps_of-ok frames in
    elim (dec_lt (length frame) 14) [
      | yes short ↦ (
        timestamps,
        rw (lt→leb 14 (length frame) short) e,
        rw (lt→leb 14 (length frame) short) count,
      )
      | no long ↦
          let (soc, e₁) = u32_at-ok {E = ⊥} frame 6 (omega arith) in
          let (fracsec, e₂) = u32_at-ok {E = ⊥} frame 10 (omega arith) in
          (
            (soc * 1000000 + fracsec) ∷ timestamps,
            rw (le→leb 14 (length frame) (omega arith), e₁, e₂, e) refl,
            rw (le→leb 14 (length frame) (omega arith)) (ap suc count),
          )
    ]

-- The rest of a buffer behind its whole frames may be long enough for a time as well.
abbrev pub extra : ℕ → ℕ
extra rest = if leb 14 rest then 1 else 0

chunks_fuel-nil : (fuel n : ℕ) → chunks_fuel {A = ℕ} fuel n [] ≡ []
unfolding chunks_fuel
chunks_fuel-nil zero n = refl
chunks_fuel-nil (suc fuel) n = refl

count_timed_one :
    (frame : Bytes) (frames : List Bytes)
    → count_timed (frame ∷ frames) ≡ extra (length frame) + count_timed frames
count_timed_one frame frames = ground arith

extra_long : (rest : ℕ) → 14 ≤ rest → extra rest ≡ 1
extra_long rest h = ground arith

pub extra_short : (rest : ℕ) → rest < 14 → extra rest ≡ 0
extra_short rest h = ground arith

count_timed-chunks_fuel :
    (fuel n : ℕ) (buffer : Bytes)
    → 14 ≤ n
    → length buffer ≤ fuel
    → count_timed (chunks_fuel fuel n buffer) ≡ length buffer / n + extra (length buffer % n)
unfolding chunks_fuel
count_timed-chunks_fuel zero n [] p h = omega (
  arith,
  div-eq_of_lt {n = 0} {m = n} (omega arith),
  ap extra (mod-eq_of_lt {n = 0} {m = n} (omega arith)),
  extra_short 0 (omega arith),
)
count_timed-chunks_fuel zero n (x ∷ xs) p h = absurd (omega arith)
count_timed-chunks_fuel (suc fuel) n [] p h = omega (
  arith,
  div-eq_of_lt {n = 0} {m = n} (omega arith),
  ap extra (mod-eq_of_lt {n = 0} {m = n} (omega arith)),
  extra_short 0 (omega arith),
)
count_timed-chunks_fuel (suc fuel) n (x ∷ xs) p h =
    let whole : Bytes = x ∷ xs in
    count_timed_one (take n whole) (chunks_fuel fuel n (drop n whole))
    ∙ elim (dec_lt (length whole) n) [
      | yes short ↦ omega (
        arith,
        ap extra {x = length (take n whole)} {y = length whole}
            (omega (arith, length-take n whole)),
        div-eq_of_lt {n = length whole} {m = n} short,
        ap extra (mod-eq_of_lt {n = length whole} {m = n} short),
        ap count_timed
            (ap (chunks_fuel fuel n) (drop_all n whole (omega arith)) ∙ chunks_fuel-nil fuel n),
      )
      | no full ↦ omega (
        arith,
        extra_long (length (take n whole)) (omega (arith, length-take n whole)),
        count_timed-chunks_fuel fuel n (drop n whole) p (omega (arith, length-drop n whole)),
        ap (λ m. m / n + extra (m % n)) (length-drop n whole),
        div-eq-sub-div {m = n} {n = length whole} (omega arith) (omega arith),
        ap extra (mod-eq-sub-mod {n = length whole} {m = n} (omega arith)),
      )
    ]

-- The array of the times has a row for each whole frame, and one more where the rest of the buffer
-- has the bytes of a time.
pub arrays_of-ok :
    (buffer : Bytes) (n : ℕ) (channels : List (String × ChannelInfo))
    → 14 ≤ n
    → Entries (FitsFrame n) channels
    → (timestamps : List ℕ) × (arrays : List Array) × (arrays_of buffer n channels
        ≡ ok (timestamp_array timestamps ∷ arrays))
      × (length timestamps ≡ length buffer / n + extra (length buffer % n))
      × HasShape (length buffer / n) (channel_fields channels) arrays
unfolding arrays_of frames_of chunks
arrays_of-ok buffer n channels p h =
    let (timestamps, e₁, count) = timestamps_of-ok (chunks_fuel (length buffer) n buffer) in
    let (arrays, e₂, shape) = extract_all-HasShape buffer n channels (omega arith) h in
    (
      timestamps,
      arrays,
      rw (ne→== n 0 (λ zero_size. omega arith), e₁, e₂) refl,
      count ∙ count_timed-chunks_fuel (length buffer) n buffer p (omega arith),
      shape,
    )
