-- ===== src/FrameBuffer/Query.antt =====
-- src/frame_buffer.rs: `find_timestamp_index`, `get_last_n_seconds` and `get_column_slice`.
use Prim.Native.String.{String}
use mathlib.Core.List.{reverse}
use pmu_data_analytics.Base.{
  Run, ℕ, zero, suc, ◌+◌, ◌-◌, ◌*◌, List, [], ◌∷◌, ◌++◌, map, Bool, ◌&&◌, Option, none, some, ok,
  unwrap, ◌>>=◌, ltb, leb, ◌==◌, if◌then◌else◌, get_elem?, take,
}
use pmu_data_analytics.Base.Words.{Build, word}
use pmu_data_analytics.Base.Maps.{lookup}
use pmu_data_analytics.FrameBuffer.{
  PmuDataStore, PmuValue, phasor, fixed_phasor, analog, fixed_analog, digital, ColumnData, phasors,
  fixed_phasors, analogs, fixed_analogs, digitals,
}

pub record DataSlice : Type 0 where
  pub start_idx : ℕ
  pub count : ℕ
  pub wraps : Bool

-- `lo..lo + n`
abbrev pub range : ℕ → ℕ → List ℕ
range lo zero = []
range lo (suc n) = lo ∷ range (lo + 1) n

-- The indices that hold frames, the oldest first.
unfoldable pub search_range : PmuDataStore → List ℕ
search_range s =
    if ltb s.size s.capacity
    then range 0 s.size
    else range s.current_index (s.capacity - s.current_index) ++ range 0 s.current_index

-- The loop: the first index whose timestamp is not above the target.
unfoldable pub search_back : List ℕ → ℕ → List ℕ → Run (Option ℕ)
search_back timestamps target [] = ok none
search_back timestamps target (i ∷ is) = do
  t ← unwrap (get_elem? timestamps i)
  let rest = search_back timestamps target is
  if leb t target then ok (some i) else rest

-- Where the loop ends without a result, the oldest index.
abbrev pub or_oldest : PmuDataStore → Option ℕ → ℕ
or_oldest s none = if ltb s.size s.capacity then 0 else s.current_index
or_oldest s (some i) = i

unfoldable pub find_timestamp_index : PmuDataStore → ℕ → Run (Option ℕ)
unfolding search_range search_back
find_timestamp_index s target_time =
    if s.size == 0
    then ok none
    else (if s.size == 1 then ok (some 0) else (do
      found ← search_back s.timestamps target_time (reverse (search_range s))
      ok (some (or_oldest s found))))

abbrev pub last_index : PmuDataStore → ℕ
last_index s = if s.current_index == 0 then s.capacity - 1 else s.current_index - 1

abbrev pub slice_count : PmuDataStore → ℕ → ℕ
slice_count s start_idx =
    if ltb s.size s.capacity
    then (if ltb start_idx s.current_index then s.current_index - start_idx else 1)
    else (if ltb start_idx s.current_index
        then s.current_index - start_idx
        else s.capacity - start_idx + s.current_index)

abbrev pub slice_from : PmuDataStore → Option ℕ → Option DataSlice
slice_from s none = none
slice_from s (some start_idx) = some (record {
  start_idx = start_idx;
  count = slice_count s start_idx;
  wraps = s.size == s.capacity && leb s.current_index start_idx;
})

-- `seconds * 1000` is a product of `u64`; the subtraction saturates at 0.
unfoldable pub get_last_n_seconds : Build → PmuDataStore → ℕ → Run (Option DataSlice)
get_last_n_seconds build s seconds = if s.size == 0 then ok none else (do
  current_time ← unwrap (get_elem? s.timestamps (last_index s))
  millis ← word build 64 (seconds * 1000)
  found ← find_timestamp_index s (current_time - millis)
  ok (slice_from s found))

abbrev pub slice_indices : PmuDataStore → DataSlice → List ℕ
slice_indices s slice =
    if slice.wraps
    then take slice.count
        (range slice.start_idx (s.capacity - slice.start_idx) ++ range 0 s.current_index)
    else range slice.start_idx slice.count

-- `for idx in indices { result.push(vec[idx]) }`
unfoldable pub read_all : {A : Type 0} → List A → List ℕ → Run (List A)
read_all xs [] = ok []
read_all xs (i ∷ is) = do ok ((← unwrap (get_elem? xs i)) ∷ (← read_all xs is))

unfoldable pub read_column : ColumnData → List ℕ → Run (List PmuValue)
unfolding read_all
read_column (phasors xs) is = do ok (map phasor (← read_all xs is))
read_column (fixed_phasors xs) is = do ok (map fixed_phasor (← read_all xs is))
read_column (analogs xs) is = do ok (map analog (← read_all xs is))
read_column (fixed_analogs xs) is = do ok (map fixed_analog (← read_all xs is))
read_column (digitals xs) is = do ok (map digital (← read_all xs is))

abbrev pub slice_found : Option ColumnData → List ℕ → Run (Option (List PmuValue))
slice_found none is = ok none
slice_found (some column) is = do ok (some (← read_column column is))

unfoldable pub get_column_slice : PmuDataStore → String → DataSlice → Run (Option (List PmuValue))
unfolding read_column
get_column_slice s name slice = slice_found (lookup name s.columns) (slice_indices s slice)
