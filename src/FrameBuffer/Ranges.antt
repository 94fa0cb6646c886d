-- ===== src/FrameBuffer/Ranges.antt =====
-- src/frame_buffer.rs: the index lists of the queries, and reading a vector along them.
use pmu_data_analytics.Base.{
  ℕ, zero, suc, ◌+◌, ◌-◌, ◌≤◌, ◌<◌, ◌≡◌, refl, sym, ◌∙◌, ap, ap₂, subst, List, [], ◌∷◌, ◌++◌, some,
  ok, length, take, drop, get_elem?, get_elem?-IsSome, take_all, arith, le→ltb, lt→ltb, length-drop,
}
use native.Mathlib.Decide.{dec_lt}
use pmu_data_analytics.FrameBuffer.{PmuDataStore}
use pmu_data_analytics.FrameBuffer.Query.{range, search_range, read_all}
use pmu_data_analytics.FrameBuffer.Invariant.{IsStore}
use pmu_data_analytics.FrameBuffer.History.{in_order}

pub length-range : (a n : ℕ) → length (range a n) ≡ n
length-range a zero = refl
length-range a (suc n) = ap suc (length-range (a + 1) n)

pub get_elem?-range : (a n k : ℕ) → k < n → get_elem? (range a n) k ≡ some (a + k)
get_elem?-range a zero k h = absurd (omega arith)
get_elem?-range a (suc n) zero h = ap some (omega arith)
get_elem?-range a (suc n) (suc k) h =
    get_elem?-range (a + 1) n k (omega arith)
    ∙ ap some {x = a + 1 + k} {y = a + suc k} (omega arith)

pub drop-range : (a n k : ℕ) → drop k (range a n) ≡ range (a + k) (n - k)
drop-range a n zero = ap₂ range {x = a} {y = a + 0} (omega arith) (omega arith)
drop-range a zero (suc k) = ap (range (a + suc k)) {x = 0} {y = 0 - suc k} (omega arith)
drop-range a (suc n) (suc k) =
    drop-range (a + 1) n k ∙ ap₂ range {x = a + 1 + k} {y = a + suc k} (omega arith) (omega arith)

-- The entries of a vector at a list of indices, all of them in range.
abbrev pub Reads : {A : Type 0} → List A → List ℕ → List A → Type 0
Reads xs [] [] = Unit
Reads xs [] (y ∷ ys) = ⊥
Reads xs (i ∷ is) [] = ⊥
Reads xs (i ∷ is) (y ∷ ys) = (get_elem? xs i ≡ some y) × Reads xs is ys

pub read_all-Reads :
    {A : Type 0} (xs : List A) (is : List ℕ) (ys : List A) → Reads xs is ys → read_all xs is ≡ ok ys
unfolding read_all
read_all-Reads xs [] [] r = refl
read_all-Reads xs [] (y ∷ ys) r = absurd r
read_all-Reads xs (i ∷ is) [] r = absurd r
read_all-Reads xs (i ∷ is) (y ∷ ys) r = rw (r.0, read_all-Reads xs is ys r.1)

module _ {A : Type 0} (xs : List A) where
  Reads-append :
      (is js : List ℕ) (ys zs : List A)
      → Reads xs is ys
      → Reads xs js zs
      → Reads xs (is ++ js) (ys ++ zs)
  Reads-append [] js [] zs r t = t
  Reads-append [] js (y ∷ ys) zs r t = absurd r
  Reads-append (i ∷ is) js [] zs r t = absurd r
  Reads-append (i ∷ is) js (y ∷ ys) zs r t = (r.0, Reads-append is js ys zs r.1 t)

  pub Reads-drop :
      (k : ℕ) (is : List ℕ) (ys : List A) → Reads xs is ys → Reads xs (drop k is) (drop k ys)
  Reads-drop zero is ys r = r
  Reads-drop (suc k) [] [] r = tt
  Reads-drop (suc k) [] (y ∷ ys) r = absurd r
  Reads-drop (suc k) (i ∷ is) [] r = absurd r
  Reads-drop (suc k) (i ∷ is) (y ∷ ys) r = Reads-drop k is ys r.1

  pub Reads-length : (is : List ℕ) (ys : List A) → Reads xs is ys → length ys ≡ length is
  Reads-length [] [] r = refl
  Reads-length [] (y ∷ ys) r = absurd r
  Reads-length (i ∷ is) [] r = absurd r
  Reads-length (i ∷ is) (y ∷ ys) r = ap suc (Reads-length is ys r.1)

  pub get_elem?-Reads :
      (is : List ℕ) (ys : List A) (k i : ℕ)
      → Reads xs is ys
      → get_elem? is k ≡ some i
      → get_elem? ys k ≡ get_elem? xs i
  get_elem?-Reads [] [] k i r e = cc
  get_elem?-Reads [] (y ∷ ys) k i r e = absurd r
  get_elem?-Reads (j ∷ is) [] k i r e = absurd r
  get_elem?-Reads (j ∷ is) (y ∷ ys) zero i r e =
      let same : j ≡ i = cc in sym r.0 ∙ ap (get_elem? xs) same
  get_elem?-Reads (j ∷ is) (y ∷ ys) (suc k) i r e = get_elem?-Reads is ys k i r.1 e

drop-step {ℓ} :
    {A : Type ℓ} (xs : List A) (a : ℕ) (y : A)
    → get_elem? xs a ≡ some y
    → drop a xs ≡ y ∷ drop (suc a) xs
drop-step [] a y e = cc
drop-step (x ∷ xs) zero y e = let same : x ≡ y = cc in ap (λ t. t ∷ xs) same
drop-step (x ∷ xs) (suc a) y e = drop-step xs a y e

module _ {A : Type 0} (xs : List A) where
  Reads-range : (a n : ℕ) → a + n ≤ length xs → Reads xs (range a n) (take n (drop a xs))
  Reads-range a zero h = tt
  Reads-range a (suc n) h =
      let (y, e) = get_elem?-IsSome xs a (omega arith) in
      let next : a + 1 ≡ suc a = omega arith in
      let rest : Reads xs (range (a + 1) n) (take n (drop (suc a) xs)) =
        subst (λ t. Reads xs (range (a + 1) n) (take n (drop t xs))) next
          (Reads-range (a + 1) n (omega arith)) in
      rw (drop-step xs a y e) (e, rest)

  -- The search range of a valid store reads a vector of its capacity in the order of arrival.
  pub Reads-search_range :
      (s : PmuDataStore)
      → IsStore s
      → length xs ≡ s.capacity
      → Reads xs (search_range s) (in_order s xs)
  unfolding search_range
  Reads-search_range s h len = elim (dec_lt s.size s.capacity) [
    | yes filling ↦
        rw (lt→ltb s.size s.capacity filling) (Reads-range 0 s.size (omega (arith, len)))
    | no full ↦
        let i : ℕ = s.current_index in
        let whole : take (s.capacity - i) (drop i xs) ≡ drop i xs =
          take_all (s.capacity - i) (drop i xs) (omega (arith, length-drop i xs, len)) in
        rw (le→ltb s.size s.capacity (omega arith)) (
          Reads-append xs (range i (s.capacity - i)) (range 0 i) (drop i xs) (take i xs)
            (subst (Reads xs (range i (s.capacity - i))) whole
              (Reads-range i (s.capacity - i) (omega (arith, h.index_lt, len))))
            (Reads-range 0 i (omega (arith, h.index_lt, len))))
  ]
