-- ===== src/Client/Clock.antt =====
-- A clock that is set back while frames are on the heap.
use pmu_data_analytics.Base.{
  ℕ, ◌-◌, ◌<◌, ◌≡◌, refl, ap, ◌∙◌, le→leb, lt→leb, lt→ltb, List, [], ◌∷◌, ◌++◌, append_assoc, panic,
  All,
}
use pmu_data_analytics.Base.Bytes.{Bytes}
use pmu_data_analytics.Client.{heap, PdcClient, expire, store_frame}
use pmu_data_analytics.Client.Store.{IsPast, IsOld}

expire-future :
    (now duration : ℕ) (old rest : List (ℕ × Bytes)) (entry : ℕ × Bytes)
    → All (IsPast now duration) old
    → All (IsOld now duration) old
    → now < entry.0
    → expire now duration (old ++ (entry ∷ rest)) ≡ panic
unfolding expire
expire-future now duration [] rest (t, frame) past h future = rw (lt→leb t now future) refl
expire-future now duration ((u, gone) ∷ old) rest entry past h future =
    rw (le→leb u now past.0, lt→ltb duration (now - u) h.0)
      (expire-future now duration old rest entry past.1 h.1 future)

-- A client with its frames on the heap panics on a frame if, behind frames that are past the duration,
-- there is one whose time is later than the time that the clock now shows.
pub store_frame-future :
    (now : ℕ) (client : PdcClient) (old rest : List (ℕ × Bytes)) (entry : ℕ × Bytes)
    (frame_data : Bytes)
    → client.buffer ≡ heap (old ++ (entry ∷ rest))
    → All (IsPast now client.duration) old
    → All (IsOld now client.duration) old
    → now < entry.0
    → store_frame now client frame_data ≡ panic
unfolding store_frame
store_frame-future now client old rest entry frame_data on_heap past h future =
    let expired =
      ap (expire now client.duration) (append_assoc old (entry ∷ rest) ((now, frame_data) ∷ []))
      ∙ expire-future now client.duration old (rest ++ ((now, frame_data) ∷ [])) entry past h
          future in
    rw (on_heap, expired) refl
