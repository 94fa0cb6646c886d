-- ===== src/Client/Store.antt =====
-- What `store_frame` keeps of a client's buffer, and the two computations of a frame's size.
use pmu_data_analytics.Base.{
  ℕ, ◌+◌, ◌-◌, ◌≤◌, ◌<◌, ◌≡◌, refl, ap, ◌∙◌, lt→ltb, le→ltb, le→leb, leb, if◌then◌else◌, eq→==,
  List, [], ◌∷◌, ◌++◌, length, length-append, length-take, length-drop, take, drop, some, ok, All,
  All-append, arith,
}
use native.Mathlib.Decide.{dec_lt}
use pmu_data_analytics.Base.Bytes.{Bytes}
use pmu_data_analytics.Frames.Config.{
  PmuConfigurationFrame, ConfigurationFrame, calc_data_frame_size, pmu_data_size, add_data_sizes,
}
use pmu_data_analytics.Client.{
  stack, heap, PdcClient, stack_size, add_frame_sizes, calculate_frame_size, copy_from_slice,
  expire, next_offset, store_frame,
}

add_frame_sizes-add_data_sizes :
    (cs : List PmuConfigurationFrame) (size : ℕ) → add_frame_sizes size cs ≡ add_data_sizes size cs
unfolding add_frame_sizes add_data_sizes pmu_data_size
add_frame_sizes-add_data_sizes [] size = refl
add_frame_sizes-add_data_sizes (c ∷ cs) size =
    add_frame_sizes-add_data_sizes cs _ ∙ ap (λ n. add_data_sizes n cs) (omega arith)

-- The client's own computation of the size of a data frame agrees with that of the configuration.
pub calculate_frame_size-calc_data_frame_size :
    (config : ConfigurationFrame) → calculate_frame_size (some config) ≡ calc_data_frame_size config
unfolding calculate_frame_size calc_data_frame_size
calculate_frame_size-calc_data_frame_size config =
    add_frame_sizes-add_data_sizes config.pmu_configs 16

-- A client with its memory on the stack: a frame fits the limit, the limit fits the memory, and the
-- offset is within the limit.
pub record IsStack (client : PdcClient) (memory : Bytes) : Type 0 where
  pub on_stack : client.buffer ≡ stack memory
  pub memory_len : length memory ≡ stack_size
  pub frame_fits : client.frame_size ≤ client.max_buffer_size
  pub limit_fits : client.max_buffer_size ≤ stack_size
  pub offset_le : client.write_offset ≤ client.max_buffer_size

-- A client with a valid memory on the stack stores a frame of its frame size without a panic. The frame
-- goes where the last one ended, if it then ends within the limit, and at the start of the memory
-- otherwise; the offset is then behind it, every other byte of the memory is as before, like the
-- client's other fields, and the client stays valid.
pub store_frame-IsStack :
    (now : ℕ) (client : PdcClient) (memory frame_data : Bytes)
    → IsStack client memory
    → length frame_data ≡ client.frame_size
    → (o : ℕ) × (client' : PdcClient) × (memory' : Bytes) × (store_frame now client frame_data
        ≡ ok client')
      × IsStack client' memory'
      × (o ≡ (
          if leb (client.write_offset + client.frame_size) client.max_buffer_size
          then client.write_offset
          else 0))
      × (client' ≡ record client { buffer = stack memory'; write_offset = o + client.frame_size })
      × (memory' ≡ take o memory ++ (frame_data ++ drop (o + client.frame_size) memory))
unfolding store_frame copy_from_slice
store_frame-IsStack now client memory frame_data h len =
    let o : ℕ = next_offset client in
    let n : ℕ = client.frame_size in
    let fits : o + n ≤ client.max_buffer_size = ground (arith, h.frame_fits) in
    let written : Bytes = take o memory ++ (frame_data ++ drop (o + n) memory) in
    (
      o,
      record client { buffer = stack written; write_offset = o + n },
      written,
      rw
          (
            h.on_stack,
            le→leb (o + n) (length memory) (omega (arith, fits, h.memory_len, h.limit_fits)),
            eq→== (length frame_data) n len,
          )
          refl,
      record {
        on_stack = refl;
        memory_len = omega (
          arith,
          length-append (take o memory) (frame_data ++ drop (o + n) memory),
          length-append frame_data (drop (o + n) memory),
          length-take o memory,
          length-drop (o + n) memory,
          fits,
          h.memory_len,
          h.limit_fits,
        );
        frame_fits = h.frame_fits;
        limit_fits = h.limit_fits;
        offset_le = fits;
      },
      ground arith,
      refl,
      refl,
    )

module _ (now duration : ℕ) where
  abbrev pub IsPast : ℕ × Bytes → Type 0
  IsPast entry = entry.0 ≤ now

  abbrev pub IsOld : ℕ × Bytes → Type 0
  IsOld entry = duration < now - entry.0

  -- The first entry, if any, is within the duration.
  abbrev pub StartsFresh : List (ℕ × Bytes) → Type 0
  StartsFresh [] = Unit
  StartsFresh (entry ∷ rest) = now - entry.0 ≤ duration

  expire-split :
      (frames : List (ℕ × Bytes))
      → All IsPast frames
      → (gone : List (ℕ × Bytes)) × (kept : List (ℕ × Bytes)) × (expire now duration frames
          ≡ ok kept)
        × (frames ≡ gone ++ kept)
        × All IsOld gone
        × StartsFresh kept
  unfolding expire
  expire-split [] h = ([], [], refl, refl, tt, tt)
  expire-split ((t, frame) ∷ rest) h = elim (dec_lt duration (now - t)) [
    | yes old ↦
        let (gone, kept, e, split, all_old, fresh) = expire-split rest h.1 in
        (
          (t, frame) ∷ gone,
          kept,
          rw (le→leb t now h.0, lt→ltb duration (now - t) old) e,
          ap (λ l. (t, frame) ∷ l) split,
          (old, all_old),
          fresh,
        )
    | no new ↦ (
      [],
      (t, frame) ∷ rest,
      rw (le→leb t now h.0, le→ltb duration (now - t) (omega arith)) refl,
      refl,
      tt,
      omega arith,
    )
  ]

-- A client with its frames on the heap, none of them from the future, takes any frame without a
-- panic. Of the frames with the new one at the end it drops a beginning in which all are older than
-- the duration, and the first that is left is not.
pub store_frame-heap :
    (now : ℕ) (client : PdcClient) (frames : List (ℕ × Bytes)) (frame_data : Bytes)
    → client.buffer ≡ heap frames
    → All (IsPast now client.duration) frames
    → (gone : List (ℕ × Bytes)) × (kept : List (ℕ × Bytes)) × (store_frame now client frame_data
        ≡ ok (record client { buffer = heap kept }))
      × (frames ++ ((now, frame_data) ∷ []) ≡ gone ++ kept)
      × All (IsOld now client.duration) gone
      × StartsFresh now client.duration kept
unfolding store_frame
store_frame-heap now client frames frame_data on_heap past =
    let (gone, kept, e, split, all_old, fresh) =
      expire-split now client.duration (frames ++ ((now, frame_data) ∷ [])) (
        All-append (IsPast now client.duration) frames ((now, frame_data) ∷ []) past
          (omega arith, tt)) in
    (gone, kept, rw (on_heap, e) refl, split, all_old, fresh)
