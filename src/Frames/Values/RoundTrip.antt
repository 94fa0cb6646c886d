-- ===== src/Frames/Values/RoundTrip.antt =====
-- Numbers that are laid out by the standard are read back.
use pmu_data_analytics.Base.{
  ℕ, ◌^◌, ◌<◌, ◌≡◌, refl, ap, ◌∙◌, Bool, true, false, List, [], ◌∷◌, map, length, concat, All, ℤ,
  bits_of_i16, ok, arith,
}
use pmu_data_analytics.Base.Bytes.{Bytes, u16_bytes, u32_bytes}
use pmu_data_analytics.Base.Chunks.{chunks-concat, map_outcome-ok, u16_of_chunk, u32_of_chunk}
use pmu_data_analytics.Frames.Prefix.RoundTrip.{u16_round_trip, u32_round_trip}
use pmu_data_analytics.Parser.Data.Layout.{IsI16}
use pmu_data_analytics.Parser.Data.RoundTrip.{i16_round_trip}
use pmu_data_analytics.Frames.Config.{PmuConfigurationFrame, has_flag, phasor_size}
use pmu_data_analytics.Frames.Data.{F32, PmuDataFrame}
use pmu_data_analytics.Frames.Values.{
  PmuValues, float, fixed, f32_of_chunk, i16_of_chunk, parse_numbers, parse_phasors, parse_analogs,
  parse_digitals,
}

-- The bytes of values, in the given format.
abbrev pub put_values : PmuValues → Bytes
put_values (float xs) = concat (map (λ (x : F32). u32_bytes x.bits) xs)
put_values (fixed zs) = concat (map (λ z. u16_bytes (bits_of_i16 z)) zs)

-- The numbers fit their widths.
abbrev pub IsF32 : F32 → Type 0
IsF32 x = x.bits < 2 ^ 32

abbrev pub Fits : Bool → PmuValues → Type 0
Fits true (float xs) = All IsF32 xs
Fits true (fixed zs) = ⊥
Fits false (float xs) = ⊥
Fits false (fixed zs) = All IsI16 zs

blocks-length {ℓ} :
    {A : Type ℓ} (n : ℕ) (f : A → Bytes) (xs : List A)
    → ((x : A) → length (f x) ≡ n)
    → All (λ b. length b ≡ n) (map f xs)
blocks-length n f [] h = tt
blocks-length n f (x ∷ xs) h = (h x, blocks-length n f xs h)

f32s : (xs : List F32) → All IsF32 xs → All (λ x. f32_of_chunk (u32_bytes x.bits) ≡ ok x) xs
unfolding u32_of_chunk
f32s [] h = tt
f32s (x ∷ xs) h = (ap (λ w. ok (record { bits = w })) (u32_round_trip x.bits h.0), f32s xs h.1)

i16s : (zs : List ℤ) → All IsI16 zs → All (λ z. i16_of_chunk (u16_bytes (bits_of_i16 z)) ≡ ok z) zs
unfolding u16_of_chunk
i16s [] h = tt
i16s (z ∷ zs) h = (ap ok (i16_round_trip z h.0), i16s zs h.1)

pub parse_numbers-put :
    (floating : Bool) (v : PmuValues)
    → Fits floating v
    → parse_numbers floating (put_values v) ≡ ok v
unfolding parse_numbers
parse_numbers-put true (float xs) h =
    rw
      (
        chunks-concat 4 (map (λ (x : F32). u32_bytes x.bits) xs) (omega arith)
            (blocks-length 4 (λ (x : F32). u32_bytes x.bits) xs (λ x. refl)),
        map_outcome-ok f32_of_chunk (λ (x : F32). u32_bytes x.bits) xs (f32s xs h),
      )
      refl
parse_numbers-put true (fixed zs) h = absurd h
parse_numbers-put false (float xs) h = absurd h
parse_numbers-put false (fixed zs) h =
    rw
      (
        chunks-concat 2 (map (λ z. u16_bytes (bits_of_i16 z)) zs) (omega arith)
            (blocks-length 2 (λ z. u16_bytes (bits_of_i16 z)) zs (λ z. refl)),
        map_outcome-ok i16_of_chunk (λ z. u16_bytes (bits_of_i16 z)) zs (i16s zs h),
      )
      refl

phasor_size-pos : (c : PmuConfigurationFrame) → 0 < phasor_size c
unfolding phasor_size
phasor_size-pos c = ground arith

-- A phasor of the configured format and width.
abbrev pub IsPhasor : PmuConfigurationFrame → PmuValues → Type 0
IsPhasor c v = Fits (has_flag c.format 0x0002) v × (length (put_values v) ≡ phasor_size c)

phasors-length :
    (c : PmuConfigurationFrame) (vs : List PmuValues)
    → All (IsPhasor c) vs
    → All (λ b. length b ≡ phasor_size c) (map put_values vs)
phasors-length c [] h = tt
phasors-length c (v ∷ vs) h = (h.0.1, phasors-length c vs h.1)

phasors-numbers :
    (c : PmuConfigurationFrame) (vs : List PmuValues)
    → All (IsPhasor c) vs
    → All (λ v. parse_numbers (has_flag c.format 0x0002) (put_values v) ≡ ok v) vs
phasors-numbers c [] h = tt
phasors-numbers c (v ∷ vs) h =
    (parse_numbers-put (has_flag c.format 0x0002) v h.0.0, phasors-numbers c vs h.1)

module _ {T : Type 0} (frame : PmuDataFrame T) (c : PmuConfigurationFrame) where
  -- Phasors of the format and of the number of bytes that the configuration gives, whose numbers
  -- fit their widths, laid out one behind the other, are read back in order.
  parse_phasors-put :
      (vs : List PmuValues)
      → All (IsPhasor c) vs
      → frame.phasors ≡ concat (map put_values vs)
      → parse_phasors frame c ≡ ok vs
  unfolding parse_phasors
  parse_phasors-put vs h e =
      rw
        (
          e,
          chunks-concat (phasor_size c) (map put_values vs) (phasor_size-pos c)
              (phasors-length c vs h),
        )
        (map_outcome-ok (parse_numbers (has_flag c.format 0x0002)) put_values vs
          (phasors-numbers c vs h))

  -- Analog values of the format that the configuration gives, which fit their widths, laid out
  -- one behind the other, are read back in order.
  parse_analogs-put :
      (v : PmuValues)
      → Fits (has_flag c.format 0x0004) v
      → frame.analog ≡ put_values v
      → parse_analogs frame c ≡ ok v
  unfolding parse_analogs
  parse_analogs-put v h e =
      ap (parse_numbers (has_flag c.format 0x0004)) e
      ∙ parse_numbers-put (has_flag c.format 0x0004) v h

abbrev pub IsU16 : ℕ → Type 0
IsU16 w = w < 2 ^ 16

u16s : (ws : List ℕ) → All IsU16 ws → All (λ w. u16_of_chunk {E = ⊥} (u16_bytes w) ≡ ok w) ws
unfolding u16_of_chunk
u16s [] h = tt
u16s (w ∷ ws) h = (ap ok (u16_round_trip w h.0), u16s ws h.1)

-- Digital words that fit sixteen bits, laid out one behind the other, are read back in order.
parse_digitals-put :
    {T : Type 0} (frame : PmuDataFrame T) (ws : List ℕ)
    → All IsU16 ws
    → frame.digital ≡ concat (map u16_bytes ws)
    → parse_digitals frame ≡ ok ws
unfolding parse_digitals
parse_digitals-put frame ws h e =
    rw
      (
        e,
        chunks-concat 2 (map u16_bytes ws) (omega arith) (blocks-length 2 u16_bytes ws (λ w. refl)),
      )
      (map_outcome-ok u16_of_chunk u16_bytes ws (u16s ws h))

-- Phasors of the format and of the number of bytes that the configuration gives, analog values of its
-- format and digital words, whose numbers fit their widths, each laid out one behind the other, are
-- read back in order.
pub parse_values-put :
    {T : Type 0} (frame : PmuDataFrame T) (c : PmuConfigurationFrame) (vs : List PmuValues)
    (v : PmuValues) (ws : List ℕ)
    → All (IsPhasor c) vs
    → Fits (has_flag c.format 0x0004) v
    → All IsU16 ws
    → frame.phasors ≡ concat (map put_values vs)
    → frame.analog ≡ put_values v
    → frame.digital ≡ concat (map u16_bytes ws)
    → (parse_phasors frame c ≡ ok vs)
      × (parse_analogs frame c ≡ ok v)
      × (parse_digitals frame ≡ ok ws)
parse_values-put frame c vs v ws h₁ h₂ h₃ e₁ e₂ e₃ = (
  parse_phasors-put frame c vs h₁ e₁,
  parse_analogs-put frame c v h₂ e₂,
  parse_digitals-put frame ws h₃ e₃,
)
