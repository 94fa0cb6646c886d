-- ===== src/Tests/Tables.antt =====
-- Tables of the frames of a stream of one PMU, with a small crate in place of arrow's.
use Prim.Native.String.{String}
use pmu_data_analytics.Base.{
  ℕ, ◌/◌, ◌≡◌, refl, sym, ◌∙◌, Bool, true, ◌&&◌, ◌==◌, eq→==, if◌then◌else◌, ok, List, [], ◌∷◌,
  replicate, some, none, All, arith,
}
use pmu_data_analytics.Base.Bytes.{Bytes}
use pmu_data_analytics.Frames.Config.{
  calc_data_frame_size, pmu_data_size, phasor_size, freq_dfreq_size, analog_size,
}
use pmu_data_analytics.Frames.Channels.{get_channel_map}
use pmu_data_analytics.Arrow.{Array, build_arrow_schema}
use pmu_data_analytics.Arrow.Shape.{array_length, HasShape}
use pmu_data_analytics.BufferServer.{AppState, received, get_buffer_data}
use pmu_data_analytics.BufferServer.Library.{ArrowCrate, BatchLaws, WriterLaws}
use pmu_data_analytics.BufferServer.Response.{get_buffer_data-ok}
use pmu_data_analytics.Tests.Streams.{stream}

-- A table is its arrays, if they are of one length, and its bytes are the number of rows.
abbrev same_rows : List Array → Bool
same_rows [] = true
same_rows (a ∷ []) = true
same_rows (a ∷ b ∷ rest) = (array_length a == array_length b) && same_rows (b ∷ rest)

abbrev rows_of : List Array → ℕ
rows_of [] = 0
rows_of (a ∷ rest) = array_length a

abbrev pub small_crate : ArrowCrate
small_crate = record {
  Batch = List Array;
  Writer = Bytes;
  try_new_batch = λ schema arrays. if same_rows arrays then some arrays else none;
  try_new_writer = λ schema. some [];
  write = λ writer batch. some (rows_of batch ∷ writer);
  finish = λ writer. some writer;
}

same_rows-All :
    (rows : ℕ) (arrays : List Array)
    → All (λ array. array_length array ≡ rows) arrays
    → same_rows arrays ≡ true
same_rows-All rows [] h = refl
same_rows-All rows (a ∷ []) h = refl
same_rows-All rows (a ∷ b ∷ rest) h =
    rw (eq→== (array_length a) (array_length b) (h.0 ∙ sym h.1.0))
      (same_rows-All rows (b ∷ rest) h.1)

pub small_crate-BatchLaws : BatchLaws small_crate
small_crate-BatchLaws = record {
  accepts = λ rows field schema arrays shape.
      (arrays, rw (same_rows-All rows arrays shape.all_rows) refl);
}

pub small_crate-WriterLaws : WriterLaws small_crate
small_crate-WriterLaws = record {
  encodes =
      λ schema arrays batch made. ([], rows_of batch ∷ [], rows_of batch ∷ [], refl, refl, refl);
}

abbrev pub no_text : Bytes → String
no_text bytes = "PMU"

abbrev pub channel_text : String → ℕ → String → String
channel_text station_name id_code channel = channel

stream_size : calc_data_frame_size stream ≡ 28
unfolding calc_data_frame_size pmu_data_size phasor_size freq_dfreq_size analog_size
stream_size = refl

abbrev app_state : AppState
app_state = record { config = stream; frame_size = 28 }

-- Two frames and four bytes of a third.
get_buffer_data-ok_example :
    (arrays : List Array) × (batch : List Array) × (writer : Bytes) × (written : Bytes)
    × (bytes : Bytes) × (get_buffer_data small_crate no_text channel_text true
          (received (replicate 60 7))
          app_state
        ≡ ok bytes)
    × HasShape (60 / 28) (build_arrow_schema (get_channel_map no_text channel_text stream)) arrays
    × (small_crate.try_new_batch
          (build_arrow_schema (get_channel_map no_text channel_text stream))
          arrays
        ≡ some batch)
    × (small_crate.write writer batch ≡ some written)
    × (small_crate.finish written ≡ some bytes)
get_buffer_data-ok_example =
    get_buffer_data-ok small_crate no_text channel_text app_state (replicate 60 7)
      small_crate-BatchLaws small_crate-WriterLaws (sym stream_size) (omega arith)
