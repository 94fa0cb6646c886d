-- ===== src/Base/Chunks.antt =====
-- `slice.chunks(n)`, and a conversion of every chunk that may panic.
use Prim.Native.Nat.{ℕ, zero, suc, ◌+◌, ◌*◌, ◌≤◌, ◌<◌}
use mathlib.Core.Path.{◌≡◌, refl, ap, ap₂, ◌∙◌, sym}
use mathlib.Core.List.{List, [], ◌∷◌, ◌++◌, map}
use native.Mathlib.Omega.{arith}
use pmu_data_analytics.Base.Lists.{
  length, take, drop, concat, All, length-append, take-append_length, drop-append_length,
  take-append-drop, length-drop,
}
use pmu_data_analytics.Base.Results.{Outcome, ok, panic, ◌>>=◌}

module _ {A : Type 0} where
  -- Each round takes one chunk; the length of the list is fuel enough when `n` is not 0. (Rust
  -- panics for `n` = 0, which the callers rule out.)
  unfoldable pub chunks_fuel : ℕ → ℕ → List A → List (List A)
  chunks_fuel zero n xs = []
  chunks_fuel (suc fuel) n [] = []
  chunks_fuel (suc fuel) n (x ∷ xs) = take n (x ∷ xs) ∷ chunks_fuel fuel n (drop n (x ∷ xs))

  unfoldable pub chunks : ℕ → List A → List (List A)
  unfolding chunks_fuel
  chunks n xs = chunks_fuel (length xs) n xs

  -- Splitting blocks of `n` elements that were joined gives the blocks back.
  chunks_fuel-concat :
      (fuel n : ℕ) (blocks : List (List A))
      → 0 < n
      → All (λ b. length b ≡ n) blocks
      → length (concat blocks) ≤ fuel
      → chunks_fuel fuel n (concat blocks) ≡ blocks
  unfolding chunks_fuel
  chunks_fuel-concat zero n [] p h q = refl
  chunks_fuel-concat zero n (b ∷ bs) p h q = absurd (omega (arith, length-append {0} b (concat bs)))
  chunks_fuel-concat (suc fuel) n [] p h q = refl
  chunks_fuel-concat (suc fuel) n ([] ∷ bs) p h q = absurd (omega arith)
  chunks_fuel-concat (suc fuel) n ((x ∷ b) ∷ bs) p h q = ap₂ ◌∷◌ first (
      ap (chunks_fuel fuel n) rest
      ∙ chunks_fuel-concat fuel n bs p h.1 (omega (arith, length-append {0} b (concat bs))))
    where
      first : take n (x ∷ (b ++ concat bs)) ≡ x ∷ b
      first =
          ap (λ k. take k (x ∷ (b ++ concat bs))) (sym h.0) ∙ take-append_length (x ∷ b) (concat bs)

      rest : drop n (x ∷ (b ++ concat bs)) ≡ concat bs
      rest =
          ap (λ k. drop k (x ∷ (b ++ concat bs))) (sym h.0) ∙ drop-append_length (x ∷ b) (concat bs)

  pub chunks-concat :
      (n : ℕ) (blocks : List (List A))
      → 0 < n
      → All (λ b. length b ≡ n) blocks
      → chunks n (concat blocks) ≡ blocks
  unfolding chunks
  chunks-concat n blocks p h =
      chunks_fuel-concat (length (concat blocks)) n blocks p h (omega arith)

  concat-chunks_fuel :
      (fuel n : ℕ) (xs : List A) → 0 < n → length xs ≤ fuel → concat (chunks_fuel fuel n xs) ≡ xs
  unfolding chunks_fuel
  concat-chunks_fuel zero n [] p q = refl
  concat-chunks_fuel zero n (x ∷ xs) p q = absurd (omega arith)
  concat-chunks_fuel (suc fuel) n [] p q = refl
  concat-chunks_fuel (suc fuel) n (x ∷ xs) p q =
      ap (λ l. take n (x ∷ xs) ++ l)
        (concat-chunks_fuel fuel n (drop n (x ∷ xs)) p (omega (arith, length-drop {0} n (x ∷ xs))))
      ∙ take-append-drop n (x ∷ xs)

  -- Nothing is lost or reordered: the chunks joined are the list.
  pub concat-chunks : (n : ℕ) (xs : List A) → 0 < n → concat (chunks n xs) ≡ xs
  unfolding chunks
  concat-chunks n xs p = concat-chunks_fuel (length xs) n xs p (omega arith)

module _ {E A B : Type 0} where
  -- `iter().map(f).collect()`, where `f` may fail: the first failure ends it.
  unfoldable pub map_outcome : (A → Outcome E B) → List A → Outcome E (List B)
  map_outcome f [] = ok []
  map_outcome f (x ∷ xs) = do ok ((← f x) ∷ (← map_outcome f xs))

  pub map_outcome-ok :
      (f : A → Outcome E B) (g : B → A) (ys : List B)
      → All (λ y. f (g y) ≡ ok y) ys
      → map_outcome f (map g ys) ≡ ok ys
  unfolding map_outcome
  map_outcome-ok f g [] h = refl
  map_outcome-ok f g (y ∷ ys) h = rw (h.0, map_outcome-ok f g ys h.1)

-- `uN::from_be_bytes(chunk.try_into().unwrap())`: a chunk of another length panics.
module _ {E : Type 0} where
  unfoldable pub u16_of_chunk : List ℕ → Outcome E ℕ
  u16_of_chunk (a ∷ b ∷ []) = ok (a * 256 + b)
  u16_of_chunk _ = panic

  unfoldable pub u32_of_chunk : List ℕ → Outcome E ℕ
  u32_of_chunk (a ∷ b ∷ c ∷ d ∷ []) = ok (a * 16777216 + b * 65536 + c * 256 + d)
  u32_of_chunk _ = panic
