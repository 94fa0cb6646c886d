-- ===== src/Tests/Clients.antt =====
-- A client with frames of 28 bytes, on the stack and on the heap.
use pmu_data_analytics.Base.{
  ℕ, ◌+◌, ◌≡◌, leb, if◌then◌else◌, refl, List, [], ◌∷◌, ◌++◌, length-replicate, take, drop,
  replicate, some, ok, panic, All, arith,
}
use pmu_data_analytics.Base.Bytes.{Bytes}
use pmu_data_analytics.Frames.Config.{calc_data_frame_size}
use pmu_data_analytics.Client.{
  stack, heap, PdcClient, stack_size, calculate_frame_size, store_frame,
}
use pmu_data_analytics.Client.Clock.{store_frame-future}
use pmu_data_analytics.Client.Store.{
  IsStack, IsOld, StartsFresh, calculate_frame_size-calc_data_frame_size, store_frame-IsStack,
  store_frame-heap,
}
use pmu_data_analytics.Tests.Streams.{stream}

calculate_frame_size-calc_data_frame_size_example :
    calculate_frame_size (some stream) ≡ calc_data_frame_size stream
calculate_frame_size-calc_data_frame_size_example = calculate_frame_size-calc_data_frame_size stream

abbrev pub blank : Bytes
blank = replicate stack_size 0

-- The next frame does not fit below the limit of two frames.
abbrev pub on_stack : PdcClient
on_stack = record {
  buffer = stack blank;
  duration = 10;
  max_buffer_size = 56;
  frame_size = 28;
  write_offset = 56;
  idcode = 7660;
  config = some stream;
}

pub on_stack-IsStack : IsStack on_stack blank
on_stack-IsStack = record {
  on_stack = refl;
  memory_len = length-replicate {A = ℕ} stack_size 0;
  frame_fits = omega arith;
  limit_fits = omega arith;
  offset_le = omega arith;
}

abbrev pub one_frame : Bytes
one_frame = replicate 28 7

store_frame-IsStack_example :
    (o : ℕ) × (client' : PdcClient) × (memory' : Bytes) × (store_frame 100 on_stack one_frame
      ≡ ok client')
    × IsStack client' memory'
    × (o ≡ (if leb (56 + 28) 56 then 56 else 0))
    × (client' ≡ record on_stack { buffer = stack memory'; write_offset = o + 28 })
    × (memory' ≡ take o blank ++ (one_frame ++ drop (o + 28) blank))
store_frame-IsStack_example = store_frame-IsStack 100 on_stack blank one_frame on_stack-IsStack refl

abbrev old_frames : List (ℕ × Bytes)
old_frames = (80, one_frame) ∷ (95, one_frame) ∷ []

abbrev on_heap : PdcClient
on_heap = record on_stack { buffer = heap old_frames }

store_frame-heap_example :
    (gone : List (ℕ × Bytes)) × (kept : List (ℕ × Bytes)) × (store_frame 100 on_heap one_frame
      ≡ ok (record on_heap { buffer = heap kept }))
    × (old_frames ++ ((100, one_frame) ∷ []) ≡ gone ++ kept)
    × All (IsOld 100 10) gone
    × StartsFresh 100 10 kept
store_frame-heap_example =
    store_frame-heap 100 on_heap old_frames one_frame refl (omega arith, (omega arith, tt))

-- The clock shows 100, and the second frame is of 120.
store_frame-future_example :
    store_frame 100
      (record on_stack {
        buffer = heap ((80, one_frame) ∷ (120, one_frame) ∷ (95, one_frame) ∷ []);
      })
      one_frame
    ≡ panic
store_frame-future_example =
    store_frame-future 100
      (record on_stack {
        buffer = heap ((80, one_frame) ∷ (120, one_frame) ∷ (95, one_frame) ∷ []);
      })
      ((80, one_frame) ∷ []) ((95, one_frame) ∷ []) (120, one_frame) one_frame refl
      (omega arith, tt) (omega arith, tt) (omega arith)
