-- ===== src/FrameBuffer/Invariant.antt =====
-- What holds of a store between its calls. No call panics on such a store, and each keeps it.
use Prim.Native.String.{String}
use pmu_data_analytics.Base.Maps.{Entries, Entries-insert}
use pmu_data_analytics.Base.{
  ℕ, ◌+◌, ◌%◌, ◌≤◌, ◌<◌, ◌≡◌, refl, ◌∙◌, ◌⊎◌, inr, List, ok, length, set, length-set,
  length-replicate, arith,
}
use native.Mathlib.Nat.{mod-lt, mod-eq_of_lt}
use native.Mathlib.Decide.{dec_lt}
use pmu_data_analytics.FrameBuffer.Values.{
  column_length, blank_column-length, write_slot-ok, set_values, write_values-ok,
}
use pmu_data_analytics.FrameBuffer.{
  PmuDataStore, PmuValue, ColumnType, blank_column, new, add_column, next_size, add_frame,
}

-- The vectors have the capacity; the index is in range, and counts the frames until the store is
-- full.
pub record IsStore (s : PmuDataStore) : Type 0 where
  pub positive : 0 < s.capacity
  pub stamps_len : length s.timestamps ≡ s.capacity
  pub index_lt : s.current_index < s.capacity
  pub size_le : s.size ≤ s.capacity
  pub filling : (s.size ≡ s.capacity) ⊎ (s.current_index ≡ s.size)
  pub columns_len : Entries (λ c. column_length c ≡ s.capacity) s.columns

-- A new store of a positive capacity is valid.
pub new-IsStore : (num_columns capacity : ℕ) → 0 < capacity → IsStore (new num_columns capacity)
unfolding new
new-IsStore num_columns capacity h = record {
  positive = h;
  stamps_len = length-replicate capacity 0;
  index_lt = h;
  size_le = omega arith;
  filling = inr refl;
  columns_len = tt;
}

-- A valid store with a column added, of any name and type, is valid.
pub add_column-IsStore :
    (s : PmuDataStore) (name : String) (t : ColumnType) → IsStore s → IsStore (add_column s name t)
unfolding add_column
add_column-IsStore s name t h = record {
  positive = h.positive;
  stamps_len = h.stamps_len;
  index_lt = h.index_lt;
  size_le = h.size_le;
  filling = h.filling;
  columns_len =
      Entries-insert (λ c. column_length c ≡ s.capacity) name (blank_column t s.capacity) s.columns
        (blank_column-length t s.capacity) h.columns_len;
}

-- The store after a frame.
abbrev pub next_store : PmuDataStore → ℕ → List (String × PmuValue) → PmuDataStore
next_store s timestamp frame = record s {
  columns = set_values s.current_index s.columns frame;
  timestamps = set s.timestamps s.current_index timestamp;
  current_index = (s.current_index + 1) % s.capacity;
  size = next_size s.size s.capacity;
}

next_size-le : (size cap : ℕ) → next_size size cap ≤ cap
next_size-le size cap = ground arith

-- The counter goes round with the capacity, and the size follows it until the store is full.
next_filling :
    (size cap i : ℕ)
    → i < cap
    → size ≤ cap
    → (size ≡ cap) ⊎ (i ≡ size)
    → (next_size size cap ≡ cap) ⊎ ((i + 1) % cap ≡ next_size size cap)
next_filling size cap i h l f = elim (dec_lt (i + 1) cap) [
  | yes p ↦ ground (arith, mod-eq_of_lt p)
  | no p ↦ ground arith
]

-- On a valid store `add_frame` does not panic, whatever the names and the types of the values, and
-- the store stays valid.
pub add_frame-IsStore :
    (s : PmuDataStore) (timestamp : ℕ) (frame : List (String × PmuValue))
    → IsStore s
    → (add_frame s timestamp frame ≡ ok (next_store s timestamp frame))
      × IsStore (next_store s timestamp frame)
unfolding add_frame
add_frame-IsStore s timestamp frame h =
    let written =
      write_values-ok s.capacity s.current_index h.index_lt s.columns frame h.columns_len in
    (
      rw (
        write_slot-ok s.timestamps s.current_index timestamp
            (omega (arith, h.index_lt, h.stamps_len)),
        written.0,
      ),
      record {
        positive = h.positive;
        stamps_len = length-set s.timestamps s.current_index timestamp ∙ h.stamps_len;
        index_lt = mod-lt (s.current_index + 1) h.positive;
        size_le = next_size-le s.size s.capacity;
        filling = next_filling s.size s.capacity s.current_index h.index_lt h.size_le h.filling;
        columns_len = written.1;
      },
    )
