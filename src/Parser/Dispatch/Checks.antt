-- ===== src/Parser/Dispatch/Checks.antt =====
-- What `parse_frame` does with a frame whose first four bytes are in order: the checksum decides.
use pmu_data_analytics.Base.{
  ℕ, ◌+◌, ◌/◌, ◌^◌, ◌<◌, ◌≡◌, ◌≢◌, refl, sym, ◌∙◌, ◌⊎◌, inl, inr, Bool, true, false, ◌||◌, ◌==◌,
  if◌then◌else◌, ◌∷◌, ◌++◌, length, length-append, All, All-append, Option, err, arith, eq→==,
  ne→==, ensure, ◌>>◌,
}
use pmu_data_analytics.Base.Bytes.{Bytes, index, u16_at, u16_of_bytes}
use pmu_data_analytics.Base.Words.{Build}
use pmu_data_analytics.Frames.Crc.{calculate_crc}
use pmu_data_analytics.Frames.Crc.Detect.{IsByte, calculate_crc-IsWord, calculate_crc_detects_byte}
use pmu_data_analytics.Frames.Config.{ConfigurationFrame}
use pmu_data_analytics.Parser.Trailer.{with_crc, length-with_crc, slice_body, u16_at_crc}
use pmu_data_analytics.Parser.Errors.{Parse, ParseError, invalid_crc}
use pmu_data_analytics.Parser.Dispatch.{parse_frame, parse_by_type, version_of, frame_type_of}

-- The bytes of a frame before its checksum, when they begin with AA hex.
abbrev pub body_of : ℕ → ℕ → ℕ → Bytes → Bytes
body_of second f₀ f₁ rest = 0xaa ∷ second ∷ f₀ ∷ f₁ ∷ rest

-- A known version, and a size that counts the whole frame with its checksum.
pub record IsFramed (second f₀ f₁ : ℕ) (rest : Bytes) : Type 0 where
  pub second_byte : IsByte second
  pub version : (version_of second ≡ 1) ⊎ (version_of second ≡ 2)
  pub size : u16_of_bytes f₀ f₁ ≡ length rest + 6

ensure-then :
    {B : Type 0} (b : Bool) (e : ParseError) (m : Parse B)
    → (ensure b e >> m) ≡ (if b then m else err e)
ensure-then true e m = refl
ensure-then false e m = refl

known_version :
    (second : ℕ)
    → (version_of second ≡ 1) ⊎ (version_of second ≡ 2)
    → (version_of second == 1 || version_of second == 2) ≡ true
known_version second (inl e) = rw (eq→== (version_of second) 1 e)
known_version second (inr e) = rw e

-- A frame that begins with AA hex, a known version and its own size is handed to the parser for
-- its type if the checksum that it ends with is that of the bytes before it, and is refused as
-- `InvalidCRC` if not.
pub parse_frame_checks :
    (build : Build) (second f₀ f₁ : ℕ) (rest : Bytes) (crc : ℕ) (config : Option ConfigurationFrame)
    → IsFramed second f₀ f₁ rest
    → crc < 2 ^ 16
    → let body = body_of second f₀ f₁ rest in
      parse_frame build (with_crc body crc) config ≡ (
        if calculate_crc body == crc
        then parse_by_type build (frame_type_of second) (with_crc body crc) config
        else err invalid_crc)
unfolding parse_frame u16_at index
parse_frame_checks build second f₀ f₁ rest crc config h small =
    let body : Bytes = body_of second f₀ f₁ rest in
    let sync : (u16_of_bytes 0xaa second / 2 ^ 8 == 0xaa) ≡ true =
      eq→== (u16_of_bytes 0xaa second / 2 ^ 8) 0xaa (omega (arith, h.second_byte)) in
    let size : (u16_of_bytes f₀ f₁ == length (with_crc body crc)) ≡ true =
      eq→== (u16_of_bytes f₀ f₁) (length (with_crc body crc))
        (omega (arith, h.size, length-with_crc body crc)) in
    rw (sync, known_version second h.version, size, slice_body body crc, u16_at_crc body crc small)
      (ensure-then (calculate_crc body == crc) _ _)

-- The checksum's own bytes of a frame.
abbrev pub seal : Bytes → Bytes
seal body = with_crc body (calculate_crc body)

module _ (build : Build) (second f₀ f₁ : ℕ) (config : Option ConfigurationFrame) where
  -- A frame of bytes that begins in order and ends with its checksum reaches the parser for its
  -- type.
  pub parse_frame-seal :
      (rest : Bytes)
      → IsFramed second f₀ f₁ rest
      → All IsByte (body_of second f₀ f₁ rest)
      → parse_frame build (seal (body_of second f₀ f₁ rest)) config
        ≡ parse_by_type build (frame_type_of second) (seal (body_of second f₀ f₁ rest)) config
  parse_frame-seal rest h bytes =
      let body : Bytes = body_of second f₀ f₁ rest in
      parse_frame_checks build second f₀ f₁ rest (calculate_crc body) config h
        (calculate_crc-IsWord body bytes)
      ∙ rw (eq→== (calculate_crc body) (calculate_crc body) refl)

  -- A frame of bytes that begins with AA hex, a known version and its own size and ends with its
  -- checksum is refused as `InvalidCRC` after one byte, behind the first four and before the
  -- checksum, was replaced by another byte.
  pub parse_frame-corrupt :
      (xs ys : Bytes) (a b : ℕ)
      → IsFramed second f₀ f₁ (xs ++ (a ∷ ys))
      → All IsByte (body_of second f₀ f₁ xs)
      → All IsByte ys
      → IsByte a
      → IsByte b
      → a ≢ b
      → parse_frame build
          (with_crc
            (body_of second f₀ f₁ (xs ++ (b ∷ ys)))
            (calculate_crc (body_of second f₀ f₁ (xs ++ (a ∷ ys)))))
          config
        ≡ err invalid_crc
  parse_frame-corrupt xs ys a b h hx hy ha hb differ =
      let pre : Bytes = body_of second f₀ f₁ xs in
      let crc : ℕ = calculate_crc (pre ++ (a ∷ ys)) in
      let same : length (xs ++ (b ∷ ys)) ≡ length (xs ++ (a ∷ ys)) =
        length-append xs (b ∷ ys) ∙ sym (length-append xs (a ∷ ys)) in
      let framed : IsFramed second f₀ f₁ (xs ++ (b ∷ ys)) = record {
        second_byte = h.second_byte;
        version = h.version;
        size = omega (arith, h.size, same);
      } in
      let wrong : calculate_crc (pre ++ (b ∷ ys)) ≢ crc =
        calculate_crc_detects_byte pre ys b a hx hy hb ha (λ e. differ (sym e)) in
      parse_frame_checks build second f₀ f₁ (xs ++ (b ∷ ys)) crc config framed
        (calculate_crc-IsWord (pre ++ (a ∷ ys)) (All-append IsByte pre (a ∷ ys) hx (ha, hy)))
      ∙ rw (ne→== (calculate_crc (pre ++ (b ∷ ys))) crc wrong)
