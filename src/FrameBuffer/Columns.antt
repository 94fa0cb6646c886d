-- ===== src/FrameBuffer/Columns.antt =====
-- What a frame does to the history of each column.
use Prim.Native.String.{String}
use pmu_data_analytics.Base.{
  ℕ, zero, suc, ◌≡◌, refl, ◌∙◌, ap, subst, inl, inr, List, [], ◌∷◌, ◌++◌, map, Option, none, some,
  ok, length, length-map, take, drop, set, get_elem?-IsSome, arith, true, false, Bool-cases,
}
use text.Mathlib.Text.{◌==◌}
use text.Mathlib.TextEquality.{eq_iff}
use pmu_data_analytics.Base.Maps.{Entries-lookup, lookup, lookup-insert}
use pmu_data_analytics.FrameBuffer.{
  PmuDataStore, PmuValue, phasor, fixed_phasor, analog, fixed_analog, digital, ColumnData, phasors,
  fixed_phasors, analogs, fixed_analogs, digitals, Columns, add_frame,
}
use pmu_data_analytics.FrameBuffer.Values.{column_length, set_value, set_found, set_values}
use pmu_data_analytics.FrameBuffer.Invariant.{IsStore, next_store, add_frame-IsStore}
use pmu_data_analytics.FrameBuffer.History.{push, in_order, chron-set, chron-stale}

-- The entries of a column as values.
abbrev pub values : ColumnData → List PmuValue
values (phasors xs) = map phasor xs
values (fixed_phasors xs) = map fixed_phasor xs
values (analogs xs) = map analog xs
values (fixed_analogs xs) = map fixed_analog xs
values (digitals xs) = map digital xs

-- The value is of the column's type.
abbrev pub Accepts : ColumnData → PmuValue → Type 0
Accepts (phasors xs) (phasor v) = Unit
Accepts (fixed_phasors xs) (fixed_phasor v) = Unit
Accepts (analogs xs) (analog v) = Unit
Accepts (fixed_analogs xs) (fixed_analog v) = Unit
Accepts (digitals xs) (digital v) = Unit
Accepts c v = ⊥

pub length-values : (c : ColumnData) → length (values c) ≡ column_length c
length-values (phasors xs) = length-map phasor xs
length-values (fixed_phasors xs) = length-map fixed_phasor xs
length-values (analogs xs) = length-map analog xs
length-values (fixed_analogs xs) = length-map fixed_analog xs
length-values (digitals xs) = length-map digital xs

map-set {ℓ κ} :
    {A : Type ℓ} {B : Type κ} (f : A → B) (xs : List A) (i : ℕ) (v : A)
    → map f (set xs i v) ≡ set (map f xs) i (f v)
map-set f [] i v = refl
map-set f (x ∷ xs) zero v = refl
map-set f (x ∷ xs) (suc i) v = ap (λ l. f x ∷ l) (map-set f xs i v)

values-set_value :
    (c : ColumnData) (i : ℕ) (v : PmuValue)
    → Accepts c v
    → values (set_value c i v) ≡ set (values c) i v
values-set_value (phasors xs) i (phasor v) h = map-set phasor xs i v
values-set_value (fixed_phasors xs) i (fixed_phasor v) h = map-set fixed_phasor xs i v
values-set_value (analogs xs) i (analog v) h = map-set analog xs i v
values-set_value (fixed_analogs xs) i (fixed_analog v) h = map-set fixed_analog xs i v
values-set_value (digitals xs) i (digital v) h = map-set digital xs i v
values-set_value c i v h = absurd h

-- A map has each key once.
abbrev pub Distinct : List (String × PmuValue) → Type 0
Distinct [] = Unit
Distinct ((name, v) ∷ rest) = (lookup name rest ≡ none) × Distinct rest

lookup-set_found_other :
    (o : Option ColumnData) (m : Columns) (i : ℕ) (k name : String) (v : PmuValue)
    → (k == name) ≡ false
    → lookup name (set_found o m i k v) ≡ lookup name m
lookup-set_found_other none m i k name v h = refl
lookup-set_found_other (some c) m i k name v h = lookup-insert k name (set_value c i v) m ∙ rw h

module _ (i : ℕ) (name : String) where
  -- A column that the frame does not name is left alone.
  pub lookup-set_values_absent :
      (m : Columns) (frame : List (String × PmuValue))
      → lookup name frame ≡ none
      → lookup name (set_values i m frame) ≡ lookup name m
  unfolding lookup
  lookup-set_values_absent m [] h = refl
  lookup-set_values_absent m ((k, v) ∷ rest) h = elim (Bool-cases (k == name)) [
    | inl same ↦ absurd (let e : some v ≡ none = rw same at h in cc)
    | inr other ↦
        lookup-set_values_absent (set_found (lookup k m) m i k v) rest (rw other at h)
        ∙ lookup-set_found_other (lookup k m) m i k name v other
  ]

  lookup-set_found_same :
      (m : Columns) (k : String) (v : PmuValue) (c : ColumnData)
      → (k == name) ≡ true
      → lookup name m ≡ some c
      → lookup name (set_found (lookup k m) m i k v) ≡ some (set_value c i v)
  lookup-set_found_same m k v c same found =
      let key : k ≡ name = (eq_iff k name).0 same in
      let there : lookup k m ≡ some c = rw key found in
      rw there (lookup-insert k name (set_value c i v) m ∙ rw same)

  -- A column that the frame names once gets that value.
  pub lookup-set_values_found :
      (m : Columns) (frame : List (String × PmuValue)) (c : ColumnData) (v : PmuValue)
      → Distinct frame
      → lookup name m ≡ some c
      → lookup name frame ≡ some v
      → lookup name (set_values i m frame) ≡ some (set_value c i v)
  lookup-set_values_found m [] c v d found h =
      absurd (unfold lookup in let e : none ≡ some v = h in cc)
  lookup-set_values_found m ((k, w) ∷ rest) c v d found h = elim (Bool-cases (k == name)) [
    | inl same ↦
        let value : w ≡ v = unfold lookup in (let e : some w ≡ some v = rw same at h in cc) in
        let absent : lookup name rest ≡ none =
          subst (λ t. lookup t rest ≡ none) ((eq_iff k name).0 same) d.0 in
        lookup-set_values_absent (set_found (lookup k m) m i k w) rest absent
        ∙ lookup-set_found_same m k w c same found
        ∙ ap (λ t. some (set_value c i t)) value
    | inr other ↦
        lookup-set_values_found (set_found (lookup k m) m i k w) rest c v d.1
          (lookup-set_found_other (lookup k m) m i k name w other ∙ found)
          (unfold lookup in (rw other at h))
  ]

module _ (s : PmuDataStore) (timestamp : ℕ) (frame : List (String × PmuValue))
    (valid : IsStore s) where
  column_len :
      (name : String) (c : ColumnData)
      → lookup name s.columns ≡ some c
      → length (values c) ≡ s.capacity
  column_len name c found =
      length-values c
      ∙ Entries-lookup (λ d. column_length d ≡ s.capacity) name s.columns c valid.columns_len found

  -- On a valid store and for a frame that names each column once, a column of the store that the
  -- frame names, with a value of its type, has that value pushed onto its history.
  pub add_frame-column :
      (name : String) (c : ColumnData) (v : PmuValue)
      → Distinct frame
      → lookup name s.columns ≡ some c
      → lookup name frame ≡ some v
      → Accepts c v
      → (s' : PmuDataStore) × (c' : ColumnData) × (add_frame s timestamp frame ≡ ok s')
        × (lookup name s'.columns ≡ some c')
        × (in_order s' (values c') ≡ push s.capacity (in_order s (values c)) v)
  add_frame-column name c v d found value fits = (
    next_store s timestamp frame,
    set_value c s.current_index v,
    (add_frame-IsStore s timestamp frame valid).0,
    lookup-set_values_found s.current_index name s.columns frame c v d found value,
    ap (in_order (next_store s timestamp frame)) (values-set_value c s.current_index v fits)
        ∙ chron-set s.capacity s.current_index (values c) v (column_len name c found) valid.index_lt
            s.size valid.size_le valid.filling,
  )

  -- On a valid store that is full, a column of the store that the frame does not name is left as
  -- it was, so that in its history the oldest entry comes back as the newest.
  pub add_frame-stale :
      (name : String) (c : ColumnData)
      → lookup name s.columns ≡ some c
      → lookup name frame ≡ none
      → s.size ≡ s.capacity
      → (s' : PmuDataStore) × (add_frame s timestamp frame ≡ ok s')
        × (lookup name s'.columns ≡ some c)
        × (in_order s' (values c)
            ≡ drop 1 (in_order s (values c)) ++ take 1 (in_order s (values c)))
  add_frame-stale name c found absent full =
      let len : length (values c) ≡ s.capacity = column_len name c found in
      let (old, e) =
        get_elem?-IsSome (values c) s.current_index (omega (arith, len, valid.index_lt)) in
      (
        next_store s timestamp frame,
        (add_frame-IsStore s timestamp frame valid).0,
        lookup-set_values_absent s.current_index name s.columns frame absent ∙ found,
        chron-stale s.capacity s.current_index (values c) old len valid.index_lt e s.size
            valid.size_le full,
      )
