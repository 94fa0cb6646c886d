-- ===== src/FrameBuffer/Search.antt =====
-- src/frame_buffer.rs, the loop of `find_timestamp_index`: the last entry that is not above a time.
use mathlib.Core.List.{reverse, reverse-cons}
use pmu_data_analytics.Base.{
  ℕ, suc, ◌<◌, ◌≡◌, refl, ◌∙◌, ap, ◌⊎◌, inl, inr, List, [], ◌∷◌, ◌++◌, Option, none, some, ok,
  panic, length, get_elem?, get_elem?-IsSome, arith, Bool, true, false, Bool-cases, Option-cases,
  leb, if◌then◌else◌,
}
use pmu_data_analytics.FrameBuffer.Query.{search_back}
use pmu_data_analytics.FrameBuffer.Ranges.{Reads, Reads-length}

-- The place of the last entry that is not above the target.
abbrev pub later : Option ℕ → Bool → Option ℕ
later (some k) b = some (suc k)
later none true = some 0
later none false = none

abbrev pub last_le : ℕ → List ℕ → Option ℕ
last_le target [] = none
last_le target (t ∷ ts) = later (last_le target ts) (leb t target)

-- Where the window begins: at that entry, or with the oldest if all are above the target.
abbrev pub from_first : Option ℕ → ℕ
from_first none = 0
from_first (some k) = k

abbrev pub cut : ℕ → List ℕ → ℕ
cut target history = from_first (last_le target history)

from_first-later :
    (o : Option ℕ) (b : Bool) (n : ℕ) → from_first o < n → from_first (later o b) < suc n
from_first-later none true n h = omega arith
from_first-later none false n h = omega arith
from_first-later (some x) b n h = omega arith

pub last_le-lt :
    (target : ℕ) (ts : List ℕ)
    → (last_le target ts ≡ none) ⊎ (from_first (last_le target ts) < length ts)
last_le-lt target [] = inl refl
last_le-lt target (t ∷ ts) = elim (last_le-lt target ts) [
  | inl e ↦ elim (Bool-cases (leb t target)) [
    | inl b ↦ inr (rw (e, b) (omega arith))
    | inr b ↦ inl (rw (e, b) refl)
  ]
  | inr l ↦ inr (from_first-later (last_le target ts) (leb t target) (length ts) l)
]

pub cut-lt : (target : ℕ) (ts : List ℕ) → 0 < length ts → cut target ts < length ts
cut-lt target ts h = elim (last_le-lt target ts) [ inl e ↦ rw e h | inr l ↦ l ]

-- The index at a place, if there is one.
abbrev pub pick : Option ℕ → List ℕ → Option ℕ
pick none is = none
pick (some k) is = get_elem? is k

abbrev or_else : Option ℕ → Option ℕ → Option ℕ
or_else (some i) o = some i
or_else none o = o

-- The loop over a list that ends with `i` comes to `i` last.
search_back-snoc :
    (ts : List ℕ) (target : ℕ) (js : List ℕ) (o : Option ℕ) (i t : ℕ)
    → search_back ts target js ≡ ok o
    → get_elem? ts i ≡ some t
    → search_back ts target (js ++ (i ∷ []))
      ≡ ok (or_else o (if leb t target then some i else none))
unfolding search_back
search_back-snoc ts target [] o i t e h =
    let same : none ≡ o = cc in
    elim (Bool-cases (leb t target)) [
      | inl b ↦ rw (h, b, ← same) refl
      | inr b ↦ rw (h, b, ← same) refl
    ]
search_back-snoc ts target (j ∷ js) o i t e h = elim (Option-cases (get_elem? ts j)) [
  | inl absent ↦ absurd (let bad : panic ≡ ok o = rw absent at e in cc)
  | inr (u, there) ↦ elim (Bool-cases (leb u target)) [
    | inl b ↦
        let found : ok (some j) ≡ ok o = rw (there, b) at e in
        let same : some j ≡ o = cc in rw (there, b, ← same) refl
    | inr b ↦ rw (there, b) (search_back-snoc ts target js o i t (rw (there, b) at e) h)
  ]
]

pick-later :
    (o : Option ℕ) (b : Bool) (i : ℕ) (is : List ℕ)
    → (o ≡ none) ⊎ (from_first o < length is)
    → or_else (pick o is) (if b then some i else none) ≡ pick (later o b) (i ∷ is)
pick-later none true i is h = refl
pick-later none false i is h = refl
pick-later (some k) b i is (inl e) = cc
pick-later (some k) b i is (inr l) = let (j, e) = get_elem?-IsSome is k l in rw e

-- The loop from the newest entry back finds the last entry that is not above the target.
pub search_back-reverse :
    (ts : List ℕ) (target : ℕ) (is ys : List ℕ)
    → Reads ts is ys
    → search_back ts target (reverse is) ≡ ok (pick (last_le target ys) is)
search_back-reverse ts target [] [] r = unfold search_back in refl
search_back-reverse ts target [] (y ∷ ys) r = absurd r
search_back-reverse ts target (i ∷ is) [] r = absurd r
search_back-reverse ts target (i ∷ is) (y ∷ ys) r =
    let inside : (last_le target ys ≡ none) ⊎ (from_first (last_le target ys) < length is) =
      elim (last_le-lt target ys) [
        | inl e ↦ inl e
        | inr l ↦ inr (omega (arith, Reads-length ts is ys r.1))
      ] in
    ap (search_back ts target) (reverse-cons i is)
    ∙ search_back-snoc ts target (reverse is) (pick (last_le target ys) is) i y
        (search_back-reverse ts target is ys r.1) r.0
    ∙ ap ok (pick-later (last_le target ys) (leb y target) i is inside)
