-- ===== src/FrameBuffer.antt =====
-- src/frame_buffer.rs: a ring of the last frames, one vector for the timestamps and one for each
-- column. A run of these functions returns a value or panics.
pub mod Query
pub mod Values
pub mod Invariant
pub mod History
pub mod Columns
pub mod Ranges
pub mod Search
pub mod Slices
pub mod Recent
pub mod Runs
use Prim.Native.String.{String}
use pmu_data_analytics.Base.{
  ℕ, ◌+◌, ◌%◌, min, List, [], ◌∷◌, Option, none, some, Run, ok, panic, ◌>>=◌, ltb, if◌then◌else◌,
  length, set, replicate, ℤ, pos,
}
use pmu_data_analytics.Base.Maps.{lookup, insert}
use pmu_data_analytics.Frames.Data.{F32}

pub data PmuValue : Type 0 where
  phasor : F32 × F32 → PmuValue
  fixed_phasor : ℤ × ℤ → PmuValue
  analog : F32 → PmuValue
  fixed_analog : ℤ → PmuValue
  digital : ℕ → PmuValue

pub data ColumnData : Type 0 where
  phasors : List (F32 × F32) → ColumnData
  fixed_phasors : List (ℤ × ℤ) → ColumnData
  analogs : List F32 → ColumnData
  fixed_analogs : List ℤ → ColumnData
  digitals : List ℕ → ColumnData

pub data ColumnType : Type 0 where
  phasor_type fixed_phasor_type analog_type fixed_analog_type digital_type : ColumnType

abbrev pub Columns : Type 0
Columns = List (String × ColumnData)

pub record PmuDataStore : Type 0 where
  pub columns : Columns
  pub timestamps : List ℕ
  pub current_index : ℕ
  pub capacity : ℕ
  pub size : ℕ

-- `new`. The number of columns is only a hint for the allocation.
unfoldable pub new : ℕ → ℕ → PmuDataStore
new num_columns capacity = record {
  columns = [];
  timestamps = replicate capacity 0;
  current_index = 0;
  capacity = capacity;
  size = 0;
}

abbrev pub zero_f32 : F32
zero_f32 = record { bits = 0 }

abbrev pub blank_column : ColumnType → ℕ → ColumnData
blank_column phasor_type n = phasors (replicate n (zero_f32, zero_f32))
blank_column fixed_phasor_type n = fixed_phasors (replicate n (pos 0, pos 0))
blank_column analog_type n = analogs (replicate n zero_f32)
blank_column fixed_analog_type n = fixed_analogs (replicate n (pos 0))
blank_column digital_type n = digitals (replicate n 0)

unfoldable pub add_column : PmuDataStore → String → ColumnType → PmuDataStore
add_column s name column_type = record s {
  columns = insert name (blank_column column_type s.capacity) s.columns;
}

-- `vec[i] = v`
unfoldable pub write_slot : {A : Type 0} → List A → ℕ → A → Run (List A)
write_slot xs i v = if ltb i (length xs) then ok (set xs i v) else panic

-- `match (column, value)`: a value of another type is dropped.
unfoldable pub store_value : ColumnData → ℕ → PmuValue → Run ColumnData
unfolding write_slot
store_value (phasors xs) i (phasor v) = do ok (phasors (← write_slot xs i v))
store_value (fixed_phasors xs) i (fixed_phasor v) = do ok (fixed_phasors (← write_slot xs i v))
store_value (analogs xs) i (analog v) = do ok (analogs (← write_slot xs i v))
store_value (fixed_analogs xs) i (fixed_analog v) = do ok (fixed_analogs (← write_slot xs i v))
store_value (digitals xs) i (digital v) = do ok (digitals (← write_slot xs i v))
store_value column i value = ok column

abbrev pub store_found : Option ColumnData → Columns → ℕ → String → PmuValue → Run Columns
store_found none columns i name value = ok columns
store_found (some column) columns i name value = do
  ok (insert name (← store_value column i value) columns)

-- `if let Some(column) = self.columns.get_mut(&name)`
unfoldable pub write_value : ℕ → Columns → String → PmuValue → Run Columns
unfolding store_value
write_value i columns name value = store_found (lookup name columns) columns i name value

-- `for (name, value) in frame_data`, in the order in which the map gives its entries.
unfoldable pub write_values : ℕ → Columns → List (String × PmuValue) → Run Columns
unfolding write_value
write_values i columns [] = ok columns
write_values i columns ((name, value) ∷ rest) = do
  written ← write_value i columns name value
  write_values i written rest

-- `self.size.min(self.capacity)`, and one more if there is room.
abbrev pub next_size : ℕ → ℕ → ℕ
next_size size capacity =
    let capped = min size capacity in if ltb capped capacity then capped + 1 else capped

unfoldable pub add_frame : PmuDataStore → ℕ → List (String × PmuValue) → Run PmuDataStore
unfolding write_slot write_values
add_frame s timestamp frame_data = do
  timestamps ← write_slot s.timestamps s.current_index timestamp
  columns ← write_values s.current_index s.columns frame_data
  ok (record s {
    columns = columns;
    timestamps = timestamps;
    current_index = (s.current_index + 1) % s.capacity;
    size = next_size s.size s.capacity;
  })
