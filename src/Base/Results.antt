-- ===== src/Base/Results.antt =====
-- What a Rust function that returns a `Result` may do: return `Ok`, return `Err`, or panic (an index
-- or a slice out of range, an `unwrap` of an error, an overflow that is checked, a `todo!`).
use mathlib.Core.Option.{Option, none, some}
use mathlib.Core.Path.{◌≡◌, refl}
use mathlib.Core.Bool.{Bool, true, false}

pub data Outcome {ℓ κ} (E : Type ℓ) (A : Type κ) : Type (ℓ ⊔ κ) where
  ok : A → Outcome E A
  err : E → Outcome E A
  panic : Outcome E A

infixl 5 ◌>>=◌ ◌>>◌
abbrev pub ◌>>=◌ {ℓ κ μ} :
    {E : Type ℓ} {A : Type κ} {B : Type μ} → Outcome E A → (A → Outcome E B) → Outcome E B
panic >>= next = panic
err e >>= next = err e
ok a >>= next = next a

abbrev pub ◌>>◌ {ℓ κ} : {E : Type ℓ} {B : Type κ} → Outcome E (Unit {0}) → Outcome E B → Outcome E B
m >> k = m >>= λ _. k

-- A chain that returned has returned at each step.
pub through {ℓ κ μ} :
    {E : Type ℓ} {A : Type κ} {B : Type μ} {step : Outcome E A} {next : A → Outcome E B}
    {result : B}
    → (step >>= next) ≡ ok result
    → (value : A) × (step ≡ ok value) × (next value ≡ ok result)
through {step = panic} done = cc
through {step = err e} done = cc
through {step = ok value} done = (value, refl, done)

-- A chain whose rest falls into two parts.
pub bind_split {ℓ κ μ ν} :
    {E : Type ℓ} {A : Type κ} {B : Type μ} {C : Type ν} (step : Outcome E A)
    (whole : A → Outcome E C) (first : A → Outcome E B) (second : B → Outcome E C)
    → ((value : A) → whole value ≡ (first value >>= second))
    → (step >>= whole) ≡ ((step >>= first) >>= second)
bind_split panic whole first second h = refl
bind_split (err e) whole first second h = refl
bind_split (ok value) whole first second h = h value

-- `unwrap`, and an indexing that panics out of range.
abbrev pub unwrap {ℓ κ} : {E : Type ℓ} {A : Type κ} → Option A → Outcome E A
unwrap none = panic
unwrap (some a) = ok a

-- `if !b { return Err(e); }`
abbrev pub ensure {ℓ} : {E : Type ℓ} → Bool → E → Outcome E (Unit {0})
ensure true e = ok tt
ensure false e = err e

-- A run that returns no error of its own: it returns a value or panics.
abbrev pub Run : Type 0 → Type 0
Run A = Outcome ⊥ A
