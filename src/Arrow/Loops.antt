-- ===== src/Arrow/Loops.antt =====
-- The loops over the frames of a buffer: where they succeed, and how many values they give.
use pmu_data_analytics.Base.{
  ℕ, zero, suc, ◌+◌, ◌/◌, ◌≤◌, ◌<◌, ◌≡◌, refl, sym, ap, ◌∙◌, Run, ok, ltb, if◌then◌else◌, le→ltb,
  lt→ltb, le→leb, List, [], ◌∷◌, length, arith,
}
use native.Mathlib.Decide.{dec_lt}
use pmu_data_analytics.Base.Bytes.{Bytes}
use pmu_data_analytics.Base.Bytes.Bounds.{slice-ok, first_slice}
use pmu_data_analytics.Base.Chunks.{chunks, chunks_fuel, u16_of_chunk, u32_of_chunk}
use pmu_data_analytics.Base.{i16_of_bits}
use native.Mathlib.Nat.{div-eq_of_lt, div-eq-sub-div}
use pmu_data_analytics.Base.{take, drop, length-take, length-drop, ne→==}
use pmu_data_analytics.Frames.Values.{f32_of_chunk, i16_of_chunk}
use pmu_data_analytics.Frames.Channels.{ChannelInfo}
use pmu_data_analytics.Arrow.{frames_of, extract_frames, extract_values, read_pair}

-- A conversion that does not fail on `n` bytes.
abbrev pub Reads : {A : Type 0} → (Bytes → Run A) → ℕ → Type 0
Reads {A} read n = (bytes : Bytes) → length bytes ≡ n → (value : A) × (read bytes ≡ ok value)

pub u16_of_chunk-Reads : Reads u16_of_chunk 2
unfolding u16_of_chunk
u16_of_chunk-Reads [] h = absurd (omega arith)
u16_of_chunk-Reads (a ∷ []) h = absurd (omega arith)
u16_of_chunk-Reads (a ∷ b ∷ []) h = (_, refl)
u16_of_chunk-Reads (a ∷ b ∷ c ∷ rest) h = absurd (omega arith)

u32_of_chunk-Reads : Reads u32_of_chunk 4
unfolding u32_of_chunk
u32_of_chunk-Reads [] h = absurd (omega arith)
u32_of_chunk-Reads (a ∷ []) h = absurd (omega arith)
u32_of_chunk-Reads (a ∷ b ∷ []) h = absurd (omega arith)
u32_of_chunk-Reads (a ∷ b ∷ c ∷ []) h = absurd (omega arith)
u32_of_chunk-Reads (a ∷ b ∷ c ∷ d ∷ []) h = (_, refl)
u32_of_chunk-Reads (a ∷ b ∷ c ∷ d ∷ e ∷ rest) h = absurd (omega arith)

pub f32_of_chunk-Reads : Reads f32_of_chunk 4
f32_of_chunk-Reads bytes h =
    let (w, e) = u32_of_chunk-Reads bytes h in (record { bits = w }, rw e refl)

pub i16_of_chunk-Reads : Reads i16_of_chunk 2
i16_of_chunk-Reads bytes h = let (w, e) = u16_of_chunk-Reads bytes h in (i16_of_bits w, rw e refl)

-- Both halves of a pair are read from half the bytes.
pub read_pair-Reads :
    {A : Type 0} (read : Bytes → Run A) (n : ℕ) → Reads read n → Reads (read_pair read n) (n + n)
read_pair-Reads read n h bytes len =
    let (low, e₁, l₁) = first_slice {E = ⊥} bytes n (omega arith) in
    let (a, e₂) = h low l₁ in
    let (high, e₃, l₃) = slice-ok {E = ⊥} bytes n n (omega arith) in
    let (b, e₄) = h high l₃ in ((a, b), rw (e₁, e₂, len, e₃, e₄) refl)

-- The frames in front of the first short one.
abbrev pub count_full : ℕ → List Bytes → ℕ
count_full frame_size [] = 0
count_full frame_size (frame ∷ frames) =
    if ltb (length frame) frame_size then 0 else suc (count_full frame_size frames)

count_full-chunks_fuel :
    (fuel n : ℕ) (buffer : Bytes)
    → 0 < n
    → length buffer ≤ fuel
    → count_full n (chunks_fuel fuel n buffer) ≡ length buffer / n
unfolding chunks_fuel
count_full-chunks_fuel zero n [] p h = sym (div-eq_of_lt p)
count_full-chunks_fuel zero n (x ∷ xs) p h = absurd (omega arith)
count_full-chunks_fuel (suc fuel) n [] p h = sym (div-eq_of_lt p)
count_full-chunks_fuel (suc fuel) n (x ∷ xs) p h =
    let whole : Bytes = x ∷ xs in
    elim (dec_lt (length whole) n) [
      | yes short ↦
          rw (lt→ltb (length (take n whole)) n (omega (arith, length-take n whole)))
            (sym (div-eq_of_lt short))
      | no full ↦ rw (le→ltb (length (take n whole)) n (omega (arith, length-take n whole))) (
          omega (
            arith,
            count_full-chunks_fuel fuel n (drop n whole) p (omega (arith, length-drop n whole)),
            ap (λ m. m / n) (length-drop n whole),
            div-eq-sub-div {m = n} {n = length whole} p (omega arith),
          ))
    ]

-- There is a frame for each whole `n` of bytes.
count_full-chunks :
    (n : ℕ) (buffer : Bytes) → 0 < n → count_full n (chunks n buffer) ≡ length buffer / n
unfolding chunks
count_full-chunks n buffer p = count_full-chunks_fuel (length buffer) n buffer p (omega arith)

module _ {A : Type 0} (read : Bytes → Run A) (frame_size : ℕ) (info : ChannelInfo) where
  extract_frames-ok :
      (frames : List Bytes)
      → Reads read info.size
      → info.offset + info.size ≤ frame_size
      → (values : List A) × (extract_frames read frame_size info frames ≡ ok values)
        × (length values ≡ count_full frame_size frames)
  unfolding extract_frames
  extract_frames-ok [] h l = ([], refl, refl)
  extract_frames-ok (frame ∷ frames) h l = elim (dec_lt (length frame) frame_size) [
    | yes short ↦ (
      [],
      rw (lt→ltb (length frame) frame_size short) refl,
      rw (lt→ltb (length frame) frame_size short) refl,
    )
    | no full ↦
        let (bytes, e₁, len) = slice-ok {E = ⊥} frame info.offset info.size (omega arith) in
        let (value, e₂) = h bytes len in
        let (values, e₃, count) = extract_frames-ok frames h l in
        (
          value ∷ values,
          rw
              (
                le→ltb (length frame) frame_size (omega arith),
                le→leb (info.offset + info.size) (length frame) (omega arith),
                e₁,
                e₂,
                e₃,
              )
              refl,
          rw (le→ltb (length frame) frame_size (omega arith)) (ap suc count),
        )
  ]

  -- The loop over the chunks of a buffer.
  pub extract_values-ok :
      (buffer : Bytes)
      → Reads read info.size
      → info.offset + info.size ≤ frame_size
      → 0 < frame_size
      → (values : List A) × (extract_values read frame_size info buffer ≡ ok values)
        × (length values ≡ length buffer / frame_size)
  unfolding extract_values frames_of
  extract_values-ok buffer h l p =
      let (values, e, count) = extract_frames-ok (chunks frame_size buffer) h l in
      (
        values,
        rw (ne→== frame_size 0 (λ zero_size. omega arith), e) refl,
        count ∙ count_full-chunks frame_size buffer p,
      )
