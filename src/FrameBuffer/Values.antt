-- ===== src/FrameBuffer/Values.antt =====
-- What a frame writes into the columns, with the panics of the writes ruled out.
use Prim.Native.String.{String}
use pmu_data_analytics.Base.{
  ℕ, ◌<◌, ◌≡◌, refl, ◌∙◌, List, [], ◌∷◌, Option, none, some, ok, length, set, length-set,
  length-replicate, arith, lt→ltb,
}
use pmu_data_analytics.Base.Maps.{Entries, Entries-lookup, Entries-insert, lookup, insert}
use pmu_data_analytics.FrameBuffer.{
  PmuValue, phasor, fixed_phasor, analog, fixed_analog, digital, ColumnData, phasors, fixed_phasors,
  analogs, fixed_analogs, digitals, Columns, ColumnType, phasor_type, fixed_phasor_type,
  analog_type, fixed_analog_type, digital_type, blank_column, write_slot, store_value, store_found,
  write_value, write_values,
}

abbrev pub column_length : ColumnData → ℕ
column_length (phasors xs) = length xs
column_length (fixed_phasors xs) = length xs
column_length (analogs xs) = length xs
column_length (fixed_analogs xs) = length xs
column_length (digitals xs) = length xs

pub blank_column-length : (t : ColumnType) (n : ℕ) → column_length (blank_column t n) ≡ n
blank_column-length phasor_type n = length-replicate n _
blank_column-length fixed_phasor_type n = length-replicate n _
blank_column-length analog_type n = length-replicate n _
blank_column-length fixed_analog_type n = length-replicate n _
blank_column-length digital_type n = length-replicate n _

pub write_slot-ok :
    {A : Type 0} (xs : List A) (i : ℕ) (v : A) → i < length xs → write_slot xs i v ≡ ok (set xs i v)
unfolding write_slot
write_slot-ok xs i v h = rw (lt→ltb i (length xs) h)

-- A value goes into the slot of a column of its type, and a column of another type is left alone.
abbrev pub set_value : ColumnData → ℕ → PmuValue → ColumnData
set_value (phasors xs) i (phasor v) = phasors (set xs i v)
set_value (fixed_phasors xs) i (fixed_phasor v) = fixed_phasors (set xs i v)
set_value (analogs xs) i (analog v) = analogs (set xs i v)
set_value (fixed_analogs xs) i (fixed_analog v) = fixed_analogs (set xs i v)
set_value (digitals xs) i (digital v) = digitals (set xs i v)
set_value column i value = column

store_value-ok :
    (c : ColumnData) (i : ℕ) (v : PmuValue)
    → i < column_length c
    → store_value c i v ≡ ok (set_value c i v)
unfolding store_value
store_value-ok (phasors xs) i (phasor v) h = rw (write_slot-ok xs i v h)
store_value-ok (fixed_phasors xs) i (fixed_phasor v) h = rw (write_slot-ok xs i v h)
store_value-ok (analogs xs) i (analog v) h = rw (write_slot-ok xs i v h)
store_value-ok (fixed_analogs xs) i (fixed_analog v) h = rw (write_slot-ok xs i v h)
store_value-ok (digitals xs) i (digital v) h = rw (write_slot-ok xs i v h)
store_value-ok c i v h = refl

set_value-length :
    (c : ColumnData) (i : ℕ) (v : PmuValue) → column_length (set_value c i v) ≡ column_length c
set_value-length (phasors xs) i (phasor v) = length-set xs i v
set_value-length (fixed_phasors xs) i (fixed_phasor v) = length-set xs i v
set_value-length (analogs xs) i (analog v) = length-set xs i v
set_value-length (fixed_analogs xs) i (fixed_analog v) = length-set xs i v
set_value-length (digitals xs) i (digital v) = length-set xs i v
set_value-length c i v = refl

-- What the columns hold after one entry of the frame.
abbrev pub set_found : Option ColumnData → Columns → ℕ → String → PmuValue → Columns
set_found none m i name v = m
set_found (some c) m i name v = insert name (set_value c i v) m

abbrev pub set_values : ℕ → Columns → List (String × PmuValue) → Columns
set_values i m [] = m
set_values i m ((name, v) ∷ rest) = set_values i (set_found (lookup name m) m i name v) rest

module _ (cap i : ℕ) (inside : i < cap) where
  abbrev Sized : Columns → Type 0
  Sized = Entries (λ c. column_length c ≡ cap)

  store_found-ok :
      (o : Option ColumnData) (m : Columns) (name : String) (v : PmuValue)
      → ((c : ColumnData) → o ≡ some c → column_length c ≡ cap)
      → Sized m
      → (store_found o m i name v ≡ ok (set_found o m i name v)) × Sized (set_found o m i name v)
  store_found-ok none m name v h k = (refl, k)
  store_found-ok (some c) m name v h k =
      let size : column_length c ≡ cap = h c refl in
      (
        rw (store_value-ok c i v (omega arith)),
        Entries-insert (λ c. column_length c ≡ cap) name (set_value c i v) m
            (set_value-length c i v ∙ size) k,
      )

  pub write_values-ok :
      (m : Columns) (frame : List (String × PmuValue))
      → Sized m
      → (write_values i m frame ≡ ok (set_values i m frame)) × Sized (set_values i m frame)
  unfolding write_values write_value
  write_values-ok m [] h = (refl, h)
  write_values-ok m ((name, v) ∷ rest) h =
      let found =
        store_found-ok (lookup name m) m name v
          (λ c e. Entries-lookup (λ c. column_length c ≡ cap) name m c h e) h in
      let later = write_values-ok (set_found (lookup name m) m i name v) rest found.1 in
      (rw (found.0, later.0), later.1)
