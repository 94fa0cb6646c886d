-- ===== src/FrameBuffer/Slices.antt =====
-- src/frame_buffer.rs, the index arithmetic of the queries: a slice runs to the newest frame.
use pmu_data_analytics.Base.{
  ℕ, ◌+◌, ◌-◌, ◌≤◌, ◌<◌, ◌≡◌, refl, sym, ◌∙◌, ap, ap₂, inl, inr, List, ◌++◌, none, some, length,
  length-append, take, drop, get_elem?, get_elem?-append_left, get_elem?-append_right, drop-append,
  take_all, arith, ◌&&◌, leb, ◌==◌, lt→ltb, le→ltb, le→leb, lt→leb, eq→==, ne→==,
}
use native.Mathlib.Decide.{dec_lt}
use pmu_data_analytics.FrameBuffer.{PmuDataStore}
use pmu_data_analytics.FrameBuffer.Query.{
  DataSlice, range, search_range, or_oldest, slice_count, slice_indices, last_index,
}
use pmu_data_analytics.FrameBuffer.Invariant.{IsStore}
use pmu_data_analytics.FrameBuffer.Ranges.{length-range, get_elem?-range, drop-range}

-- The indices of a full store of capacity `cap`, from the oldest on.
abbrev around : ℕ → ℕ → List ℕ
around cap i = range i (cap - i) ++ range 0 i

get_elem?-around_left : (cap i k : ℕ) → k < cap - i → get_elem? (around cap i) k ≡ some (i + k)
get_elem?-around_left cap i k h =
    get_elem?-append_left (range i (cap - i)) (range 0 i) k
      (omega (arith, length-range i (cap - i)))
    ∙ get_elem?-range i (cap - i) k h

get_elem?-around_right :
    (cap i k : ℕ)
    → i < cap
    → cap - i ≤ k
    → k < cap
    → get_elem? (around cap i) k ≡ some (k - (cap - i))
get_elem?-around_right cap i k inside h l =
    ap (get_elem? (around cap i)) {x = k} {y = length (range i (cap - i)) + (k - (cap - i))}
      (omega (arith, length-range i (cap - i)))
    ∙ get_elem?-append_right (range i (cap - i)) (range 0 i) (k - (cap - i))
    ∙ get_elem?-range 0 i (k - (cap - i)) (omega arith)
    ∙ ap some {x = 0 + (k - (cap - i))} {y = k - (cap - i)} (omega arith)

drop-around :
    (cap i k : ℕ)
    → drop k (around cap i)
      ≡ range (i + k) (cap - i - k) ++ range (0 + (k - (cap - i))) (i - (k - (cap - i)))
drop-around cap i k =
    drop-append k (range i (cap - i)) (range 0 i)
    ∙ ap₂ (λ a b. a ++ b) (drop-range i (cap - i) k)
        (ap (λ n. drop (k - n) (range 0 i)) (length-range i (cap - i))
          ∙ drop-range 0 i (k - (cap - i)))

module _ (s : PmuDataStore) (h : IsStore s) where
  filling-index : s.size < s.capacity → s.current_index ≡ s.size
  filling-index l = elim h.filling [ inl full ↦ absurd (omega arith) | inr e ↦ e ]

  search_range-filling : s.size < s.capacity → search_range s ≡ range 0 s.size
  unfolding search_range
  search_range-filling l = rw (lt→ltb s.size s.capacity l) refl

  search_range-full : s.capacity ≤ s.size → search_range s ≡ around s.capacity s.current_index
  unfolding search_range
  search_range-full l = rw (le→ltb s.size s.capacity l) refl

  -- The last index is the end of the search range.
  pub last_index-search_range :
      0 < s.size → get_elem? (search_range s) (s.size - 1) ≡ some (last_index s)
  last_index-search_range pos = elim (dec_lt s.size s.capacity) [
    | yes l ↦
        ap (λ is. get_elem? is (s.size - 1)) (search_range-filling l)
        ∙ get_elem?-range 0 s.size (s.size - 1) (omega arith)
        ∙ ap some {x = 0 + (s.size - 1)} {y = last_index s} (ground (arith, filling-index l))
    | no l ↦
        let i : ℕ = s.current_index in
        let full : s.size ≡ s.capacity = omega (arith, h.size_le) in
        ap (λ is. get_elem? is (s.size - 1)) (search_range-full (omega arith)) ∙ elim (dec_lt 0 i) [
          | yes p ↦
              get_elem?-around_right s.capacity i (s.size - 1) h.index_lt
                (omega (arith, h.index_lt)) (omega (arith, h.index_lt))
              ∙ ap some {x = s.size - 1 - (s.capacity - i)} {y = last_index s}
                  (ground (arith, h.index_lt))
          | no p ↦
              get_elem?-around_left s.capacity i (s.size - 1) (omega arith)
              ∙ ap some {x = i + (s.size - 1)} {y = last_index s} (ground arith)
        ]
  ]

  -- The oldest index is the start of the search range.
  pub search_range-first : 0 < s.size → get_elem? (search_range s) 0 ≡ some (or_oldest s none)
  search_range-first pos = elim (dec_lt s.size s.capacity) [
    | yes l ↦
        ap (λ is. get_elem? is 0) (search_range-filling l)
        ∙ get_elem?-range 0 s.size 0 pos
        ∙ ap some (sym (rw (lt→ltb s.size s.capacity l) refl))
    | no l ↦
        ap (λ is. get_elem? is 0) (search_range-full (omega arith))
        ∙ get_elem?-around_left s.capacity s.current_index 0 (omega (arith, h.index_lt))
        ∙ ap some {x = s.current_index + 0} {y = or_oldest s none} (ground arith)
  ]

  abbrev pub slice_at : ℕ → DataSlice
  slice_at start = record {
    start_idx = start;
    count = slice_count s start;
    wraps = s.size == s.capacity && leb s.current_index start;
  }

  slice_indices-filling :
      (k start : ℕ)
      → s.size < s.capacity
      → k < s.size
      → get_elem? (search_range s) k ≡ some start
      → slice_indices s (slice_at start) ≡ drop k (search_range s)
  slice_indices-filling k start l small e =
      let at : some (0 + k) ≡ some start =
        sym (get_elem?-range 0 s.size k small)
        ∙ ap (λ is. get_elem? is k) (sym (search_range-filling l))
        ∙ e in
      let found : 0 + k ≡ start = cc in
      let i : ℕ = s.current_index in
      let before : start < i = omega (arith, found, filling-index l) in
      rw (ne→== s.size s.capacity (omega arith), lt→ltb s.size s.capacity l, lt→ltb start i before)
        (ap₂ range {x = start} {y = 0 + k} {u = i - start} {v = s.size - k} (omega (arith, found))
            (omega (arith, found, filling-index l))
          ∙ sym (ap (drop k) (search_range-filling l) ∙ drop-range 0 s.size k))

  slice_indices-full :
      (k start : ℕ)
      → s.capacity ≤ s.size
      → k < s.size
      → get_elem? (search_range s) k ≡ some start
      → slice_indices s (slice_at start) ≡ drop k (search_range s)
  slice_indices-full k start l small e =
      let i : ℕ = s.current_index in
      let cap : ℕ = s.capacity in
      let full : s.size ≡ cap = omega (arith, h.size_le) in
      let here : get_elem? (around cap i) k ≡ some start =
        ap (λ is. get_elem? is k) (sym (search_range-full l)) ∙ e in
      let rest : drop k (search_range s)
          ≡ range (i + k) (cap - i - k) ++ range (0 + (k - (cap - i))) (i - (k - (cap - i))) =
        ap (drop k) (search_range-full l) ∙ drop-around cap i k in
      elim (dec_lt k (cap - i)) [
        | yes p ↦
            let at : some (i + k) ≡ some start = sym (get_elem?-around_left cap i k p) ∙ here in
            let found : i + k ≡ start = cc in
            let all : take (cap - start + i) (range start (cap - start) ++ range 0 i)
                ≡ range start (cap - start) ++ range 0 i =
              take_all (cap - start + i) (range start (cap - start) ++ range 0 i) (
                omega (
                  arith,
                  length-append (range start (cap - start)) (range 0 i),
                  length-range start (cap - start),
                  length-range 0 i,
                )) in
            rw
              (
                eq→== s.size cap full,
                le→leb i start (omega arith),
                le→ltb s.size cap l,
                le→ltb start i (omega arith),
              )
              (all
                ∙ ap₂ (λ a b. a ++ b)
                    (ap₂ range {x = start} {y = i + k} {u = cap - start} {v = cap - i - k}
                      (omega arith) (omega arith))
                    (ap₂ range {x = 0} {y = 0 + (k - (cap - i))} {u = i} {v = i - (k - (cap - i))}
                      (omega arith) (omega arith))
                ∙ sym rest)
        | no p ↦
            let at : some (k - (cap - i)) ≡ some start =
              sym (get_elem?-around_right cap i k h.index_lt (omega arith) (omega arith)) ∙ here in
            let found : k - (cap - i) ≡ start = cc in
            let before : start < i = omega (arith, h.index_lt) in
            rw
              (
                eq→== s.size cap full,
                lt→leb i start before,
                le→ltb s.size cap l,
                lt→ltb start i before,
              )
              (ap₂ range {x = start} {y = 0 + (k - (cap - i))} {u = i - start}
                  {v = i - (k - (cap - i))} (omega arith) (omega arith)
                ∙ ap (λ n. range (i + k) n ++ range (0 + (k - (cap - i))) (i - (k - (cap - i))))
                    {x = 0} {y = cap - i - k} (omega arith)
                ∙ sym rest)
      ]

  -- A slice that starts at a place of the search range runs from there to the newest frame.
  pub slice_indices-drop :
      (k start : ℕ)
      → k < s.size
      → get_elem? (search_range s) k ≡ some start
      → slice_indices s (slice_at start) ≡ drop k (search_range s)
  slice_indices-drop k start small e = elim (dec_lt s.size s.capacity) [
    | yes l ↦ slice_indices-filling k start l small e
    | no l ↦ slice_indices-full k start (omega arith) small e
  ]
