-- ===== src/FrameBuffer/History.antt =====
-- The store against a bounded history: each vector, read from the oldest slot on, holds the last
-- entries in the order of their arrival.
use Prim.Native.String.{String}
use pmu_data_analytics.Base.{
  ℕ, zero, suc, ◌+◌, ◌%◌, ◌≤◌, ◌<◌, ◌≡◌, refl, sym, ◌∙◌, ap, ◌⊎◌, inl, inr, List, [], ◌∷◌, ◌++◌,
  some, ok, length, length-append, length-take, length-drop, take, drop, set, get_elem?, length-set,
  take-set, drop-set, take_all, drop_all, drop_one-append, arith, lt→ltb, le→ltb, ltb,
  if◌then◌else◌, append-nil, append_assoc,
}
use native.Mathlib.Nat.{mod-eq_of_lt, mod_self}
use native.Mathlib.Decide.{dec_lt}
use pmu_data_analytics.FrameBuffer.{PmuDataStore, PmuValue, next_size, add_frame}
use pmu_data_analytics.FrameBuffer.Invariant.{IsStore, next_store, add_frame-IsStore}

-- The specification: the last `cap` entries, the oldest first.
abbrev pub push {ℓ} : {A : Type ℓ} → ℕ → List A → A → List A
push cap history x =
    if ltb (length history) cap then history ++ (x ∷ []) else drop 1 history ++ (x ∷ [])

-- A vector read from the oldest slot on.
abbrev pub chron {ℓ} : {A : Type ℓ} → ℕ → ℕ → ℕ → List A → List A
chron size cap i xs = if ltb size cap then take size xs else drop i xs ++ take i xs

abbrev pub in_order {ℓ} : {A : Type ℓ} → PmuDataStore → List A → List A
in_order s xs = chron s.size s.capacity s.current_index xs

wrap_index : (i cap : ℕ) → i < cap → cap ≤ i + 1 → (i + 1) % cap ≡ 0
wrap_index i cap h l = let e : i + 1 ≡ cap = omega arith in rw e (mod_self cap)

module _ {ℓ} {A : Type ℓ} where
  set_same : (xs : List A) (i : ℕ) (x : A) → get_elem? xs i ≡ some x → set xs i x ≡ xs
  set_same [] i x e = refl
  set_same (y ∷ ys) zero x e = let same : y ≡ x = cc in ap (λ t. t ∷ ys) (sym same)
  set_same (y ∷ ys) (suc i) x e = ap (λ t. y ∷ t) (set_same ys i x e)

  take_one-append :
      (xs ys : List A) (i : ℕ) (x : A) → get_elem? xs i ≡ some x → take 1 (drop i xs ++ ys) ≡ x ∷ []
  take_one-append [] ys i x e = cc
  take_one-append (y ∷ xs) ys zero x e = let same : y ≡ x = cc in ap (λ t. t ∷ []) same
  take_one-append (y ∷ xs) ys (suc i) x e = take_one-append xs ys i x e

module _ {ℓ} {A : Type ℓ} (cap i : ℕ) (xs : List A) (v : A) (len : length xs ≡ cap)
    (inside : i < cap) where
  -- The write of slot `i` with the store about to be read from the next slot on.
  rotated :
      let i' = (i + 1) % cap in
      drop i' (set xs i v) ++ take i' (set xs i v) ≡ drop (suc i) xs ++ (take i xs ++ (v ∷ []))
  rotated = elim (dec_lt (i + 1) cap) [
    | yes p ↦
        let e : (i + 1) % cap ≡ suc i = mod-eq_of_lt p ∙ omega arith in
        rw (e, drop-set xs i v, take-set xs i v (omega arith)) refl
    | no p ↦
        rw
          (
            wrap_index i cap inside (omega arith),
            drop_all (suc i) xs (omega arith),
            append-nil (set xs i v),
            ← take-set xs i v (omega arith),
          )
          (sym (take_all (suc i) (set xs i v) (omega (arith, length-set xs i v))))
  ]

  chron-full : {size : ℕ} → size ≡ cap → chron size cap i xs ≡ drop i xs ++ take i xs
  chron-full {size} e = rw (le→ltb size cap (omega arith)) refl

  length-around : length (drop i xs ++ take i xs) ≡ cap
  length-around =
      omega (arith, length-append (drop i xs) (take i xs), length-drop i xs, length-take i xs)

  push_full :
      {size : ℕ}
      → size ≡ cap
      → push cap (chron size cap i xs) v ≡ drop (suc i) xs ++ (take i xs ++ (v ∷ []))
  push_full {size} e =
      rw
        (
          chron-full e,
          le→ltb (length (drop i xs ++ take i xs)) cap (omega (arith, length-around)),
          drop_one-append xs (take i xs) i (omega arith),
        )
        (append_assoc (drop (suc i) xs) (take i xs) (v ∷ []))

  push_filling : {size : ℕ} → size ≡ i → push cap (chron size cap i xs) v ≡ take i xs ++ (v ∷ [])
  push_filling {size} e =
      rw
        (
          lt→ltb size cap (omega arith),
          e,
          lt→ltb (length (take i xs)) cap (omega (arith, length-take i xs)),
        )
        refl

  -- Writing the slot of the index and moving on is a push on the history.
  pub chron-set :
      (size : ℕ)
      → size ≤ cap
      → (size ≡ cap) ⊎ (i ≡ size)
      → chron (next_size size cap) cap ((i + 1) % cap) (set xs i v)
        ≡ push cap (chron size cap i xs) v
  chron-set size h (inl full) =
      let still : next_size size cap ≡ cap = ground arith in
      rw (le→ltb (next_size size cap) cap (omega arith)) (rotated ∙ sym (push_full full))
  chron-set size h (inr e) = elim (dec_lt (i + 1) cap) [
    | yes p ↦
        let grown : next_size size cap ≡ suc i = ground arith in
        rw (grown, lt→ltb (suc i) cap (omega arith))
          (take-set xs i v (omega arith) ∙ sym (push_filling (sym e)))
    | no p ↦
        let grown : next_size size cap ≡ cap = ground arith in
        rw (le→ltb (next_size size cap) cap (omega arith)) (
          rotated
          ∙ ap (λ l. l ++ (take i xs ++ (v ∷ []))) (drop_all (suc i) xs (omega arith))
          ∙ sym (push_filling (sym e)))
  ]

  -- A slot that is not written comes back at the end of the history, once the store is full.
  pub chron-stale :
      get_elem? xs i ≡ some v
      → (size : ℕ) → size ≤ cap
      → size ≡ cap
      → let h = chron size cap i xs in
        chron (next_size size cap) cap ((i + 1) % cap) xs ≡ drop 1 h ++ take 1 h
  chron-stale e size l full =
      ap (chron (next_size size cap) cap ((i + 1) % cap)) (sym (set_same xs i v e))
      ∙ chron-set size l (inl full)
      ∙ push_full full
      ∙ sym (append_assoc (drop (suc i) xs) (take i xs) (v ∷ []))
      ∙ sym (
          rw
            (
              chron-full full,
              drop_one-append xs (take i xs) i (omega arith),
              take_one-append xs (take i xs) i v e,
            )
            refl)

-- Every valid store takes every frame without a panic and stays valid, and its timestamps, read
-- from the oldest slot on, are those from before with the new one at the end and, if the store
-- was full, without the oldest.
pub add_frame_refines :
    (s : PmuDataStore) (timestamp : ℕ) (frame : List (String × PmuValue))
    → IsStore s
    → (s' : PmuDataStore) × (add_frame s timestamp frame ≡ ok s')
      × IsStore s'
      × (in_order s' s'.timestamps ≡ push s.capacity (in_order s s.timestamps) timestamp)
add_frame_refines s timestamp frame h =
    let kept = add_frame-IsStore s timestamp frame h in
    (
      next_store s timestamp frame,
      kept.0,
      kept.1,
      chron-set s.capacity s.current_index s.timestamps timestamp h.stamps_len h.index_lt s.size
          h.size_le h.filling,
    )
