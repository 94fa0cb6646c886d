-- ===== src/Base/Words.antt =====
-- Arithmetic on machine words that may overflow: a debug build of Rust panics, a release build
-- keeps the low bits.
use Prim.Native.Nat.{ℕ, ◌%◌, ◌^◌, ◌<◌}
use mathlib.Core.Path.{◌≡◌}
use native.Mathlib.Omega.{arith}
use pmu_data_analytics.Base.Tests.{ltb, if◌then◌else◌}
use pmu_data_analytics.Base.Results.{Outcome, ok, panic}

pub data Build : Type 0 where
  debug release : Build

abbrev pub on_overflow {ℓ} : {E : Type ℓ} → Build → ℕ → ℕ → Outcome E ℕ
on_overflow debug width n = panic
on_overflow release width n = ok (n % 2 ^ width)

module _ {ℓ} {E : Type ℓ} where
  -- The result `n` of an addition or a multiplication of `width`-bit words.
  unfoldable pub word : Build → ℕ → ℕ → Outcome E ℕ
  word build width n = if ltb n (2 ^ width) then ok n else on_overflow build width n

  pub word-ok : (build : Build) (width n : ℕ) → n < 2 ^ width → word build width n ≡ ok n
  unfolding word
  word-ok build width n h = ground arith
