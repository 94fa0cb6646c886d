-- ===== src/Tests/Ring.antt =====
-- A store of three slots and one column.
use Prim.Native.String.{String}
use pmu_data_analytics.Base.{◌≡◌, refl, inl, List, [], ◌∷◌, ◌++◌, some, none, ok, arith, take, drop}
use pmu_data_analytics.Base.Maps.{lookup}
use pmu_data_analytics.FrameBuffer.Runs.{Call, column, frame, run_calls, run_calls-last_n}
use pmu_data_analytics.FrameBuffer.{
  new, digital_type, PmuDataStore, PmuValue, ColumnData, digital, digitals, add_frame,
}
use pmu_data_analytics.FrameBuffer.Invariant.{IsStore}
use pmu_data_analytics.FrameBuffer.History.{push, in_order, add_frame_refines}
use pmu_data_analytics.FrameBuffer.Columns.{values, Distinct, add_frame-column, add_frame-stale}

-- Four frames went in, so the oldest of the three that are left is in slot 1.
abbrev full_store : PmuDataStore
full_store = record {
  columns = ("status", digitals (40 ∷ 20 ∷ 30 ∷ [])) ∷ [];
  timestamps = 4000 ∷ 2000 ∷ 3000 ∷ [];
  current_index = 1;
  capacity = 3;
  size = 3;
}

full_store-IsStore : IsStore full_store
full_store-IsStore = record {
  positive = omega arith;
  stamps_len = refl;
  index_lt = omega arith;
  size_le = omega arith;
  filling = inl refl;
  columns_len = (refl, tt);
}

abbrev status_frame : List (String × PmuValue)
status_frame = ("status", digital 50) ∷ []

column_there : lookup "status" full_store.columns ≡ some (digitals (40 ∷ 20 ∷ 30 ∷ []))
unfolding lookup
column_there = refl

value_there : lookup "status" status_frame ≡ some (digital 50)
unfolding lookup
value_there = refl

status-Distinct : Distinct status_frame
unfolding lookup
status-Distinct = (refl, tt)

not_named : lookup {V = PmuValue} "status" [] ≡ none
unfolding lookup
not_named = refl

add_frame_refines_example :
    (s' : PmuDataStore) × (add_frame full_store 5000 status_frame ≡ ok s')
    × IsStore s'
    × (in_order s' s'.timestamps ≡ push 3 (in_order full_store full_store.timestamps) 5000)
add_frame_refines_example = add_frame_refines full_store 5000 status_frame full_store-IsStore

add_frame-column_example :
    (s' : PmuDataStore) × (c' : ColumnData) × (add_frame full_store 5000 status_frame ≡ ok s')
    × (lookup "status" s'.columns ≡ some c')
    × (in_order s' (values c')
        ≡ push 3 (in_order full_store (values (digitals (40 ∷ 20 ∷ 30 ∷ [])))) (digital 50))
add_frame-column_example =
    add_frame-column full_store 5000 status_frame full_store-IsStore "status"
      (digitals (40 ∷ 20 ∷ 30 ∷ [])) (digital 50) status-Distinct column_there value_there tt

add_frame-stale_example :
    (s' : PmuDataStore) × (add_frame full_store 5000 [] ≡ ok s')
    × (lookup "status" s'.columns ≡ some (digitals (40 ∷ 20 ∷ 30 ∷ [])))
    × (in_order s' (values (digitals (40 ∷ 20 ∷ 30 ∷ [])))
        ≡ drop 1 (in_order full_store (values (digitals (40 ∷ 20 ∷ 30 ∷ []))))
          ++ take 1 (in_order full_store (values (digitals (40 ∷ 20 ∷ 30 ∷ [])))))
add_frame-stale_example =
    add_frame-stale full_store 5000 [] full_store-IsStore "status" (digitals (40 ∷ 20 ∷ 30 ∷ []))
      column_there not_named refl

-- Four frames into three slots, and a column in between.
abbrev calls : List Call
calls =
    frame 10 []
    ∷ column "status" digital_type
    ∷ frame 20 status_frame
    ∷ frame 30 []
    ∷ frame 40 status_frame
    ∷ []

run_calls-last_n_example :
    (s : PmuDataStore) × (run_calls calls (new 1 3) ≡ ok s)
    × IsStore s
    × (in_order s s.timestamps ≡ 20 ∷ 30 ∷ 40 ∷ [])
run_calls-last_n_example = run_calls-last_n 1 3 calls (omega arith)
