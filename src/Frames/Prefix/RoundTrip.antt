-- ===== src/Frames/Prefix/RoundTrip.antt =====
-- A prefix and its fourteen bytes determine one another.
use pmu_data_analytics.Base.{
  ℕ, ◌/◌, ◌%◌, ◌^◌, ◌<◌, ◌≡◌, refl, ap₂, [], ◌∷◌, ◌++◌, length, All, arith, ok,
}
use pmu_data_analytics.Base.Bytes.{Bytes, u16_bytes, u32_bytes, u16_of_bytes, u32_of_bytes}
use pmu_data_analytics.Frames.Crc.Detect.{IsByte}
use pmu_data_analytics.Frames.Prefix.{PrefixFrame, IsPrefix, to_hex, from_hex}

pub u16_round_trip : (w : ℕ) → w < 2 ^ 16 → u16_of_bytes (w / 2 ^ 8 % 2 ^ 8) (w % 2 ^ 8) ≡ w
u16_round_trip w h = omega arith

pub u32_round_trip :
    (w : ℕ)
    → w < 2 ^ 32
    → u32_of_bytes (w / 2 ^ 24 % 2 ^ 8) (w / 2 ^ 16 % 2 ^ 8) (w / 2 ^ 8 % 2 ^ 8) (w % 2 ^ 8) ≡ w
u32_round_trip w h = omega arith

-- The bytes that are written are bytes.
pub to_hex-IsByte : (p : PrefixFrame) → All IsByte (to_hex p)
unfolding to_hex
to_hex-IsByte p = omega arith

pub length-to_hex : (p : PrefixFrame) → length (to_hex p) ≡ 14
unfolding to_hex
length-to_hex p = refl

-- Writing a prefix whose fields fit their widths and reading it back gives the prefix.
pub from_hex-to_hex : (p : PrefixFrame) → IsPrefix p → from_hex (to_hex p) ≡ ok p
unfolding from_hex to_hex
from_hex-to_hex p h = ground (
  arith,
  u16_round_trip p.sync h.sync_u16,
  u16_round_trip p.framesize h.framesize_u16,
  u16_round_trip p.idcode h.idcode_u16,
  u32_round_trip p.soc h.soc_u32,
  u32_round_trip p.fracsec h.fracsec_u32,
)

pub u16_split : (a b : ℕ) → IsByte a → IsByte b → u16_bytes (u16_of_bytes a b) ≡ a ∷ b ∷ []
u16_split a b ha hb = ground arith

u32_split :
    (a b c d : ℕ)
    → IsByte a
    → IsByte b
    → IsByte c
    → IsByte d
    → u32_bytes (u32_of_bytes a b c d) ≡ a ∷ b ∷ c ∷ d ∷ []
u32_split a b c d ha hb hc hd = ground arith

-- Reading any fourteen bytes succeeds with fields that fit their widths, and writing the result
-- gives the same bytes.
pub to_hex-from_hex :
    (a b c d e f g h i j k l m n : ℕ)
    → let bytes : Bytes = a ∷ b ∷ c ∷ d ∷ e ∷ f ∷ g ∷ h ∷ i ∷ j ∷ k ∷ l ∷ m ∷ n ∷ [] in
      All IsByte bytes
      → (p : PrefixFrame) × (from_hex bytes ≡ ok p) × IsPrefix p × (to_hex p ≡ bytes)
unfolding from_hex to_hex
to_hex-from_hex a b c d e f g h i j k l m n x = (
  record {
    sync = u16_of_bytes a b;
    framesize = u16_of_bytes c d;
    idcode = u16_of_bytes e f;
    soc = u32_of_bytes g h i j;
    fracsec = u32_of_bytes k l m n;
  },
  refl,
  omega arith,
  ap₂ ◌++◌ (u16_split a b (omega arith) (omega arith)) (
      ap₂ ◌++◌ (u16_split c d (omega arith) (omega arith)) (
        ap₂ ◌++◌ (u16_split e f (omega arith) (omega arith)) (
          ap₂ ◌++◌ (u32_split g h i j (omega arith) (omega arith) (omega arith) (omega arith))
            (u32_split k l m n (omega arith) (omega arith) (omega arith) (omega arith))))),
)
