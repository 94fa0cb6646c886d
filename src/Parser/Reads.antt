-- ===== src/Parser/Reads.antt =====
-- The reads of the parsers return or panic, and the first one that panics ends the parse.
use pmu_data_analytics.Base.{
  ℕ, ◌+◌, ◌≤◌, ◌<◌, ◌≡◌, refl, length, arith, ok, err, panic, ◌>>=◌, Option, none, some, eq→==,
  Bool-cases, inl, inr, leb, get_elem?, unwrap, ◌&&◌,
}
use pmu_data_analytics.Base.Bytes.{Bytes, index, slice, u16_at, u32_at}
use pmu_data_analytics.Base.Bytes.Bounds.{u16_at-ok, u32_at-ok, slice-ok, slice-panic}
use pmu_data_analytics.Frames.Prefix
use pmu_data_analytics.Frames.Prefix.{PrefixFrame, LengthError}
use pmu_data_analytics.Parser.Errors.{Parse, ParseError, prefix_size, parse_prefix}

abbrev pub NoErr : {A : Type 0} → Parse A → Type 0
NoErr (ok a) = Unit
NoErr (err e) = ⊥
NoErr panic = Unit

pub bind-panic :
    {A B : Type 0} (m : Parse A) (f : A → Parse B)
    → NoErr m
    → ((a : A) → f a ≡ panic)
    → (m >>= f) ≡ panic
bind-panic (ok a) f n h = h a
bind-panic (err e) f n h = absurd n
bind-panic panic f n h = refl

pub bind-NoErr :
    {A B : Type 0} (m : Parse A) (f : A → Parse B)
    → NoErr m
    → ((a : A) → NoErr (f a))
    → NoErr (m >>= f)
bind-NoErr (ok a) f n h = h a
bind-NoErr (err e) f n h = n
bind-NoErr panic f n h = tt

unwrap-NoErr : {A : Type 0} (o : Option A) → NoErr (unwrap o)
unwrap-NoErr none = tt
unwrap-NoErr (some a) = tt

pub u16_at-NoErr : (buffer : Bytes) (i : ℕ) → NoErr (u16_at buffer i)
unfolding u16_at index
u16_at-NoErr buffer i =
    bind-NoErr (unwrap (get_elem? buffer i)) _ (unwrap-NoErr (get_elem? buffer i)) λ a.
      bind-NoErr (unwrap (get_elem? buffer (i + 1))) _ (unwrap-NoErr (get_elem? buffer (i + 1)))
        λ b. tt

pub u32_at-NoErr : (buffer : Bytes) (i : ℕ) → NoErr (u32_at buffer i)
unfolding u32_at index
u32_at-NoErr buffer i =
    bind-NoErr (unwrap (get_elem? buffer i)) _ (unwrap-NoErr (get_elem? buffer i)) λ a.
      bind-NoErr (unwrap (get_elem? buffer (i + 1))) _ (unwrap-NoErr (get_elem? buffer (i + 1)))
        λ b.
          bind-NoErr (unwrap (get_elem? buffer (i + 2))) _ (unwrap-NoErr (get_elem? buffer (i + 2)))
            λ c.
              bind-NoErr (unwrap (get_elem? buffer (i + 3))) _
                (unwrap-NoErr (get_elem? buffer (i + 3))) λ d. tt

pub slice-NoErr : (buffer : Bytes) (a b : ℕ) → NoErr (slice buffer a b)
unfolding slice
slice-NoErr buffer a b = elim (Bool-cases (leb a b && leb b (length buffer))) [
  | inl e ↦ rw e tt
  | inr e ↦ rw e tt
]

-- Fourteen bytes are enough for the prefix.
pub parse_prefix-ok :
    (buffer : Bytes)
    → prefix_size ≤ length buffer
    → (p : PrefixFrame) × (parse_prefix buffer ≡ ok p)
unfolding parse_prefix Prefix.from_hex
parse_prefix-ok buffer h =
    let (block, e, l) = slice-ok {E = ParseError} buffer 0 14 h in
    let (sync, e₁) = u16_at-ok {E = LengthError} block 0 (omega arith) in
    let (framesize, e₂) = u16_at-ok {E = LengthError} block 2 (omega arith) in
    let (idcode, e₃) = u16_at-ok {E = LengthError} block 4 (omega arith) in
    let (soc, e₄) = u32_at-ok {E = LengthError} block 6 (omega arith) in
    let (fracsec, e₅) = u32_at-ok {E = LengthError} block 10 (omega arith) in
    (
      record { sync = sync; framesize = framesize; idcode = idcode; soc = soc; fracsec = fracsec },
      rw (e, eq→== (length block) 14 l, e₁, e₂, e₃, e₄, e₅),
    )

pub parse_prefix-panic :
    (buffer : Bytes) → length buffer < prefix_size → parse_prefix buffer ≡ panic
unfolding parse_prefix
parse_prefix-panic buffer h = rw (slice-panic buffer 0 14 h)
