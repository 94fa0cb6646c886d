-- ===== src/BufferServer/Times.antt =====
-- The times in the table, for a buffer of data frames.
use Prim.Native.String.{String}
use native.Mathlib.Nat.{div-eq_of_eq-mul_left}
use pmu_data_analytics.Base.{
  ℕ, ◌+◌, ◌*◌, ◌≤◌, ◌≡◌, refl, subst, ok, le→leb, ne→==, List, [], ◌∷◌, ◌++◌, map, length, concat,
  length-append, All, arith,
}
use pmu_data_analytics.Base.Bytes.{Bytes, u16_bytes, u32_bytes}
use pmu_data_analytics.Base.Bytes.Cursor.{u32_at-At}
use pmu_data_analytics.Base.Chunks.{chunks-concat}
use pmu_data_analytics.Frames.Prefix as Prefix
use pmu_data_analytics.Frames.Prefix.{PrefixFrame, IsPrefix}
use pmu_data_analytics.Frames.Prefix.RoundTrip.{u32_round_trip}
use pmu_data_analytics.Frames.Config.{ConfigurationFrame, calc_data_frame_size}
use pmu_data_analytics.Frames.Config.Sizes.{calc_data_frame_size-ge}
use pmu_data_analytics.Frames.Data.{DataFrame}
use pmu_data_analytics.Frames.Channels.{ChannelInfo, get_channel_map}
use pmu_data_analytics.Frames.Channels.Fits.{get_channel_map-fits}
use pmu_data_analytics.Parser.Data.Layout.{put_pmus, put_data_frame}
use pmu_data_analytics.Arrow.{Array, timestamp_array, channel_fields, frames_of}
use pmu_data_analytics.Arrow.Shape.{HasShape}
use pmu_data_analytics.BufferServer.{timestamp_of, timestamps_of, arrays_of}
use pmu_data_analytics.BufferServer.Columns.{extract_all-HasShape}

-- The time of a frame as the handler takes it: SOC in microseconds, and FRACSEC as it is.
abbrev pub time_of : DataFrame → ℕ
time_of frame = frame.prefix.soc * 1000000 + frame.prefix.fracsec

timestamp_of-to_hex :
    (p : PrefixFrame) (rest : Bytes)
    → IsPrefix p
    → timestamp_of (Prefix.to_hex p ++ rest) ≡ ok (p.soc * 1000000 + p.fracsec)
unfolding timestamp_of Prefix.to_hex
timestamp_of-to_hex p rest h =
    let buffer : Bytes = Prefix.to_hex p ++ rest in
    rw
      (
        u32_at-At {E = ⊥} buffer 6 _ _ _ _ (u32_bytes p.fracsec ++ rest)
            (record { holds = refl; fits = omega arith }),
        u32_at-At {E = ⊥} buffer 10 _ _ _ _ rest (record { holds = refl; fits = omega arith }),
        u32_round_trip p.soc h.soc_u32,
        u32_round_trip p.fracsec h.fracsec_u32,
      )
      refl

-- A frame of `n` bytes whose prefix fits its widths.
abbrev pub IsTimed : ℕ → DataFrame → Type 0
IsTimed n frame = IsPrefix frame.prefix × (length (put_data_frame frame) ≡ n)

timestamps_of-put :
    (n : ℕ) (frames : List DataFrame)
    → 14 ≤ n
    → All (IsTimed n) frames
    → timestamps_of (map put_data_frame frames) ≡ ok (map time_of frames)
unfolding timestamps_of
timestamps_of-put n [] l h = refl
timestamps_of-put n (frame ∷ frames) l h =
    rw
      (
        le→leb 14 (length (put_data_frame frame)) (omega (arith, h.0.1)),
        timestamp_of-to_hex frame.prefix (put_pmus frame.pmu_data (u16_bytes frame.chk)) h.0.0,
        timestamps_of-put n frames l h.1,
      )
      refl

frames-length :
    (n : ℕ) (frames : List DataFrame)
    → All (IsTimed n) frames
    → All (λ (bytes : Bytes). length bytes ≡ n) (map put_data_frame frames)
frames-length n [] h = tt
frames-length n (frame ∷ frames) h = (h.0.1, frames-length n frames h.1)

length-frames :
    (n : ℕ) (frames : List DataFrame)
    → All (IsTimed n) frames
    → length (concat (map put_data_frame frames)) ≡ length frames * n
length-frames n [] h = omega arith
length-frames n (frame ∷ frames) h = omega (
  arith,
  length-append (put_data_frame frame) (concat (map put_data_frame frames)),
  length-frames n frames h.1,
  h.0.1,
)

-- From a buffer of data frames, one behind the other, each of the size that the configuration
-- announces and with a prefix that fits its widths, the handler makes without a panic the column of the
-- frames' times in order, SOC in microseconds plus FRACSEC, and columns of the types of the channels'
-- fields with one row for each frame.
pub arrays_of-times :
    (text : Bytes → String) (full_name : String → ℕ → String → String) (config : ConfigurationFrame)
    (frames : List DataFrame)
    → All (IsTimed (calc_data_frame_size config)) frames
    → (arrays : List Array) × (arrays_of
          (concat (map put_data_frame frames))
          (calc_data_frame_size config)
          (get_channel_map text full_name config)
        ≡ ok (timestamp_array (map time_of frames) ∷ arrays))
      × HasShape (length frames) (channel_fields (get_channel_map text full_name config)) arrays
unfolding arrays_of frames_of
arrays_of-times text full_name config frames h =
    let n : ℕ = calc_data_frame_size config in
    let large : 16 ≤ n = calc_data_frame_size-ge config in
    let buffer : Bytes = concat (map put_data_frame frames) in
    let channels : List (String × ChannelInfo) = get_channel_map text full_name config in
    let (arrays, e, shape) =
      extract_all-HasShape buffer n channels (omega (arith, large))
        (get_channel_map-fits text full_name config) in
    (
      arrays,
      rw
          (
            ne→== n 0 (λ zero_size. omega (arith, zero_size, large)),
            chunks-concat n (map put_data_frame frames) (omega (arith, large))
                (frames-length n frames h),
            timestamps_of-put n frames (omega (arith, large)) h,
            e,
          )
          refl,
      subst (λ rows. HasShape rows (channel_fields channels) arrays)
          (div-eq_of_eq-mul_left {n = n} {m = length buffer} {k = length frames}
            (omega (arith, large)) (length-frames n frames h))
          shape,
    )
