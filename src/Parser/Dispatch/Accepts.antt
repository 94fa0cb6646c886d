-- ===== src/Parser/Dispatch/Accepts.antt =====
-- What a buffer is like for which `parse_frame` returns a frame.
use pmu_data_analytics.Base.{
  ℕ, zero, suc, ◌+◌, ◌-◌, ◌/◌, ◌^◌, ◌≡◌, refl, sym, ap, ap₂, ◌∙◌, ◌⊎◌, inl, inr, Bool, true, false,
  ◌||◌, ◌==◌, Bool-cases, le→leb, leb, [], ◌∷◌, ◌++◌, length, take, drop, take-append-drop, All, ok,
  panic, through, ensure, ◌>>=◌, ◌>>◌, Option, arith,
}
use pmu_data_analytics.Base.Bytes.{Bytes, index, slice, u16_at, u16_of_bytes, u16_bytes}
use pmu_data_analytics.Base.Words.{Build}
use pmu_data_analytics.Frames.Crc.{calculate_crc}
use pmu_data_analytics.Frames.Crc.Detect.{IsByte}
use pmu_data_analytics.Frames.Config.{ConfigurationFrame}
use pmu_data_analytics.Frames.Prefix.RoundTrip.{u16_split}
use pmu_data_analytics.Parser.Errors.{Parse, ParseError, Frame}
use pmu_data_analytics.Parser.Dispatch.{parse_frame, parse_by_type, version_of, frame_type_of}
use pmu_data_analytics.Parser.Dispatch.Checks.{seal}

past :
    {B : Type 0} (b : Bool) (e : ParseError) (next : Parse B) {result : B}
    → (ensure b e >> next) ≡ ok result
    → (b ≡ true) × (next ≡ ok result)
past true e next done = (refl, done)
past false e next done = cc

same : (a b : ℕ) → (a == b) ≡ true → a ≡ b
same a b h = ground arith

known : (v : ℕ) → (v == 1 || v == 2) ≡ true → (v ≡ 1) ⊎ (v ≡ 2)
known v h = ground arith

slice-take :
    (b : Bytes) (n : ℕ) (body : Bytes) → slice {E = ParseError} b 0 n ≡ ok body → body ≡ take n b
unfolding slice
slice-take b n body h = elim (Bool-cases (leb n (length b))) [
  | inl e ↦
      let returned : ok (take (n - 0) b) ≡ ok body = rw (le→leb 0 n (omega arith), e) at h in
      let same : take (n - 0) b ≡ body = cc in
      sym same ∙ ap (λ m. take m b) {x = n - 0} {y = n} (omega arith)
  | inr e ↦ absurd (let bad : panic ≡ ok body = rw (le→leb 0 n (omega arith), e) at h in cc)
]

tail_two :
    (b : Bytes) (i crc : ℕ)
    → length b ≡ i + 2
    → All IsByte b
    → u16_at {E = ParseError} b i ≡ ok crc
    → drop i b ≡ u16_bytes crc
unfolding u16_at index
tail_two [] i crc e bytes h = absurd (omega arith)
tail_two (x ∷ []) zero crc e bytes h = absurd (omega arith)
tail_two (x ∷ y ∷ []) zero crc e bytes h =
    let same : u16_of_bytes x y ≡ crc = cc in
    sym (u16_split x y bytes.0 bytes.1.0) ∙ ap u16_bytes same
tail_two (x ∷ y ∷ z ∷ b) zero crc e bytes h = absurd (omega arith)
tail_two (x ∷ b) (suc i) crc e bytes h =
    let pair : ℕ → Parse ℕ =
      λ j. index (x ∷ b) (suc i) >>= λ p. index (x ∷ b) j >>= λ q. ok (u16_of_bytes p q) in
    tail_two b i crc (omega arith) bytes.1
      (ap pair {x = suc (i + 1)} {y = suc i + 1} (omega arith) ∙ h)

last_two :
    (b : Bytes) (crc : ℕ)
    → All IsByte b
    → u16_at {E = ParseError} b (length b - 2) ≡ ok crc
    → drop (length b - 2) b ≡ u16_bytes crc
unfolding u16_at index
last_two [] crc bytes h = cc
last_two (x ∷ []) crc bytes h = cc
last_two (x ∷ y ∷ b) crc bytes h =
    tail_two (x ∷ y ∷ b) (length (x ∷ y ∷ b) - 2) crc (omega arith) bytes h

-- The buffers that pass the checks.
pub record IsAccepted (buffer : Bytes) : Type 0 where
  pub sync : ℕ
  pub second : ℕ
  pub body : Bytes
  pub sync_read : u16_at {E = ParseError} buffer 0 ≡ ok sync
  pub lead : sync / 2 ^ 8 ≡ 0xaa
  pub second_read : index {E = ParseError} buffer 1 ≡ ok second
  pub version : (version_of second ≡ 1) ⊎ (version_of second ≡ 2)
  pub size : u16_at {E = ParseError} buffer 2 ≡ ok (length buffer)
  pub sealed : buffer ≡ seal body

-- Whatever the build and the configuration, `parse_frame` returns a frame only for a buffer of bytes
-- that begins with AA hex, a known version and its own length, and that ends with the checksum of
-- what stands before it; and the frame is what the parser for its type returns.
pub parse_frame_accepts :
    (build : Build) (buffer : Bytes) (config : Option ConfigurationFrame) (frame : Frame)
    → All IsByte buffer
    → parse_frame build buffer config ≡ ok frame
    → (h : IsAccepted buffer) × (parse_by_type build (frame_type_of h.second) buffer config
        ≡ ok frame)
unfolding parse_frame
parse_frame_accepts build buffer config frame bytes done =
    let (sync, sync_read, done₁) = through done in
    let (lead, done₂) = past _ _ _ done₁ in
    let (second, second_read, done₃) = through done₂ in
    let (version, done₄) = past _ _ _ done₃ in
    let (framesize, size_read, done₅) = through done₄ in
    let (size, done₆) = past _ _ _ done₅ in
    let (body, body_read, done₇) = through done₆ in
    let (crc, crc_read, done₈) = through done₇ in
    let (checked, done₉) = past _ _ _ done₈ in
    (
      record {
        sync = sync;
        second = second;
        body = body;
        sync_read = sync_read;
        lead = same (sync / 2 ^ 8) 0xaa lead;
        second_read = second_read;
        version = known (version_of second) version;
        size = size_read ∙ ap ok (same framesize (length buffer) size);
        sealed =
            sym (take-append-drop (length buffer - 2) buffer)
            ∙ ap₂ (λ a b. a ++ b) (sym (slice-take buffer (length buffer - 2) body body_read))
                (last_two buffer crc bytes crc_read
                  ∙ ap u16_bytes (sym (same (calculate_crc body) crc checked)));
      },
      done₉,
    )
