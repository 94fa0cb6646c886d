-- ===== src/Base/Bytes/Cursor.antt =====
-- Reading at an offset, when it is known what the buffer holds from there on.
use Prim.Native.Nat.{ℕ, ◌+◌, ◌-◌}
use mathlib.Core.Path.{◌≡◌, refl, ap, ◌∙◌, sym}
use mathlib.Core.List.{◌∷◌, ◌++◌}
use mathlib.Core.Option.{some}
use native.Mathlib.Omega.{arith}
use pmu_data_analytics.Base.Lists.{
  length, get_elem?, take, drop, length-append, drop-drop, take-append_length, drop-append_length,
  get_elem?-drop,
}
use pmu_data_analytics.Base.Tests.{le→leb}
use pmu_data_analytics.Base.Results.{ok}
use pmu_data_analytics.Base.Bytes.{Bytes, index, slice, u16_at, u32_at, u16_of_bytes, u32_of_bytes}

-- The buffer holds exactly `rest` from the offset on, and the offset is not past its end.
pub record At (buffer : Bytes) (offset : ℕ) (rest : Bytes) : Type 0 where
  pub holds : drop offset buffer ≡ rest
  pub fits : offset + length rest ≡ length buffer

pub At-zero : (buffer : Bytes) → At buffer 0 buffer
At-zero buffer = record { holds = refl; fits = omega arith }

-- Past a block of known length.
pub At-append :
    (buffer : Bytes) (offset n : ℕ) (block rest : Bytes)
    → At buffer offset (block ++ rest)
    → length block ≡ n
    → At buffer (offset + n) rest
At-append buffer offset n block rest at e = record {
  holds =
      sym (drop-drop offset n buffer)
      ∙ ap (drop n) at.holds
      ∙ ap (λ k. drop k (block ++ rest)) (sym e)
      ∙ drop-append_length block rest;
  fits = omega (arith, at.fits, length-append {0} block rest);
}

-- The same, for an end that is given.
pub At-skip :
    (buffer : Bytes) (offset n end : ℕ) (block rest : Bytes)
    → At buffer offset (block ++ rest)
    → length block ≡ n
    → end ≡ offset + n
    → At buffer end rest
At-skip buffer offset n end block rest at e to = rw to (At-append buffer offset n block rest at e)

get_elem?-At :
    (buffer : Bytes) (offset i j : ℕ) (rest : Bytes)
    → At buffer offset rest
    → j ≡ offset + i
    → get_elem? buffer j ≡ get_elem? rest i
get_elem?-At buffer offset i j rest at e =
    ap (get_elem? buffer) e
    ∙ sym (get_elem?-drop offset i buffer)
    ∙ ap (λ l. get_elem? l i) at.holds

module _ {E : Type 0} where
  pub index-At :
      (buffer : Bytes) (offset i b : ℕ) (rest : Bytes)
      → At buffer offset rest
      → get_elem? rest i ≡ some b
      → index {E = E} buffer (offset + i) ≡ ok b
  unfolding index
  index-At buffer offset i b rest at e =
      rw (get_elem?-At buffer offset i (offset + i) rest at refl, e)

  pub slice-At :
      (buffer : Bytes) (offset n : ℕ) (block rest : Bytes)
      → At buffer offset (block ++ rest)
      → length block ≡ n
      → slice {E = E} buffer offset (offset + n) ≡ ok block
  unfolding slice
  slice-At buffer offset n block rest at e =
      rw
        (
          le→leb offset (offset + n) (omega arith),
          le→leb (offset + n) (length buffer)
              (omega (arith, at.fits, length-append {0} block rest)),
          at.holds,
        )
        (ap ok (ap (λ k. take k (block ++ rest)) width ∙ take-append_length block rest))
    where
      width : offset + n - offset ≡ length block
      width = omega arith

  pub u16_at-At :
      (buffer : Bytes) (offset a b : ℕ) (rest : Bytes)
      → At buffer offset (a ∷ b ∷ rest)
      → u16_at {E = E} buffer offset ≡ ok (u16_of_bytes a b)
  unfolding u16_at
  u16_at-At buffer offset a b rest at = rw (
    get_elem?-At buffer offset 0 offset (a ∷ b ∷ rest) at (omega arith),
    get_elem?-At buffer offset 1 (offset + 1) (a ∷ b ∷ rest) at refl,
  )

  pub u32_at-At :
      (buffer : Bytes) (offset a b c d : ℕ) (rest : Bytes)
      → At buffer offset (a ∷ b ∷ c ∷ d ∷ rest)
      → u32_at {E = E} buffer offset ≡ ok (u32_of_bytes a b c d)
  unfolding u32_at
  u32_at-At buffer offset a b c d rest at = rw (
    get_elem?-At buffer offset 0 offset (a ∷ b ∷ c ∷ d ∷ rest) at (omega arith),
    get_elem?-At buffer offset 1 (offset + 1) (a ∷ b ∷ c ∷ d ∷ rest) at refl,
    get_elem?-At buffer offset 2 (offset + 2) (a ∷ b ∷ c ∷ d ∷ rest) at refl,
    get_elem?-At buffer offset 3 (offset + 3) (a ∷ b ∷ c ∷ d ∷ rest) at refl,
  )
