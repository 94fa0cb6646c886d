-- ===== src/FrameBuffer/Runs.antt =====
-- Runs of calls from a new store, against the whole history of the timestamps.
use Prim.Native.String.{String}
use native.Mathlib.Decide.{dec_lt}
use pmu_data_analytics.Base.{
  ℕ, ◌+◌, ◌-◌, ◌<◌, ◌≡◌, refl, sym, ap, ◌∙◌, Run, ok, ◌>>=◌, List, [], ◌∷◌, ◌++◌, length,
  length-append, length-drop, drop, drop-drop, drop-nil, drop-append, append_assoc, append-nil,
  subst, lt→ltb, le→ltb, arith,
}
use pmu_data_analytics.FrameBuffer.{PmuDataStore, PmuValue, ColumnType, new, add_column, add_frame}
use pmu_data_analytics.FrameBuffer.Invariant.{
  IsStore, new-IsStore, add_column-IsStore, next_store, add_frame-IsStore,
}
use pmu_data_analytics.FrameBuffer.History.{push, in_order, chron-set}

-- A call that changes a store.
pub data Call : Type 0 where
  column : String → ColumnType → Call
  frame : ℕ → List (String × PmuValue) → Call

abbrev pub run_call : Call → PmuDataStore → Run PmuDataStore
run_call (column name column_type) s = ok (add_column s name column_type)
run_call (frame timestamp frame_data) s = add_frame s timestamp frame_data

abbrev pub run_calls : List Call → PmuDataStore → Run PmuDataStore
run_calls [] s = ok s
run_calls (call ∷ calls) s = run_call call s >>= λ after. run_calls calls after

-- The timestamps of all frames, in order.
abbrev pub stamps : List Call → List ℕ
stamps [] = []
stamps (column name column_type ∷ calls) = stamps calls
stamps (frame timestamp frame_data ∷ calls) = timestamp ∷ stamps calls

-- The last `n` entries.
abbrev pub last_n : ℕ → List ℕ → List ℕ
last_n n xs = drop (length xs - n) xs

drop_none : (xs : List ℕ) (i : ℕ) → i ≡ 0 → drop i xs ≡ xs
drop_none xs i e = ap (λ j. drop j xs) e

push-last_n :
    (n : ℕ) (xs : List ℕ) (x : ℕ) → 0 < n → push n (last_n n xs) x ≡ last_n n (xs ++ (x ∷ []))
push-last_n n xs x p =
    let kept : length (last_n n xs) ≡ length xs - (length xs - n) =
      length-drop (length xs - n) xs in
    let longer : length (xs ++ (x ∷ [])) ≡ length xs + 1 = length-append xs (x ∷ []) in
    elim (dec_lt (length xs) n) [
      | yes room ↦ rw (lt→ltb (length (last_n n xs)) n (omega (arith, kept))) (
          ap (λ l. l ++ (x ∷ [])) (drop_none xs (length xs - n) (omega arith))
          ∙ sym (drop_none (xs ++ (x ∷ [])) (length (xs ++ (x ∷ [])) - n) (omega (arith, longer))))
      | no full ↦ rw (le→ltb (length (last_n n xs)) n (omega (arith, kept))) (
          ap (λ l. l ++ (x ∷ [])) (drop-drop (length xs - n) 1 xs)
          ∙ ap (λ i. drop (length xs - n + 1) xs ++ drop i (x ∷ [])) {x = 0}
              {y = length xs - n + 1 - length xs} (omega arith)
          ∙ sym (drop-append (length xs - n + 1) xs (x ∷ []))
          ∙ ap (λ i. drop i (xs ++ (x ∷ []))) {x = length xs - n + 1}
              {y = length (xs ++ (x ∷ [])) - n} (omega (arith, longer)))
    ]

-- A valid store of this capacity whose timestamps are the last of this history.
pub record Follows (n : ℕ) (history : List ℕ) (s : PmuDataStore) : Type 0 where
  pub valid : IsStore s
  pub room : s.capacity ≡ n
  pub last : in_order s s.timestamps ≡ last_n n history

abbrev FollowsRun : ℕ → List ℕ → Run PmuDataStore → Type 0
FollowsRun n history run = (after : PmuDataStore) × (run ≡ ok after) × Follows n history after

run_call-Follows :
    (n : ℕ) (history : List ℕ) (call : Call) (s : PmuDataStore)
    → 0 < n
    → Follows n history s
    → FollowsRun n (history ++ stamps (call ∷ [])) (run_call call s)
unfolding add_column
run_call-Follows n history (column name column_type) s p h = (
  add_column s name column_type,
  refl,
  record {
    valid = add_column-IsStore s name column_type h.valid;
    room = h.room;
    last = h.last ∙ ap (last_n n) (sym (append-nil history));
  },
)
run_call-Follows n history (frame timestamp frame_data) s p h =
    let (e, valid) = add_frame-IsStore s timestamp frame_data h.valid in
    (
      next_store s timestamp frame_data,
      e,
      record {
        valid = valid;
        room = h.room;
        last =
            chron-set s.capacity s.current_index s.timestamps timestamp h.valid.stamps_len
              h.valid.index_lt s.size h.valid.size_le h.valid.filling
            ∙ ap (λ order. push s.capacity order timestamp) h.last
            ∙ ap (λ cap. push cap (last_n n history) timestamp) h.room
            ∙ push-last_n n history timestamp p;
      },
    )

stamps-cons :
    (call : Call) (calls : List Call) → stamps (call ∷ calls) ≡ stamps (call ∷ []) ++ stamps calls
stamps-cons (column name column_type) calls = refl
stamps-cons (frame timestamp frame_data) calls = refl

run_calls-Follows :
    (n : ℕ) (history : List ℕ) (calls : List Call) (s : PmuDataStore)
    → 0 < n
    → Follows n history s
    → FollowsRun n (history ++ stamps calls) (run_calls calls s)
run_calls-Follows n history [] s p h =
    (s, refl, subst (λ whole. Follows n whole s) (sym (append-nil history)) h)
run_calls-Follows n history (call ∷ calls) s p h =
    let (after, e, follows) = run_call-Follows n history call s p h in
    let (end, run, follows_end) =
      run_calls-Follows n (history ++ stamps (call ∷ [])) calls after p follows in
    (
      end,
      rw e run,
      subst (λ whole. Follows n whole end)
          (append_assoc history (stamps (call ∷ [])) (stamps calls)
            ∙ ap (λ later. history ++ later) (sym (stamps-cons call calls)))
          follows_end,
    )

new-Follows : (num_columns n : ℕ) → 0 < n → Follows n [] (new num_columns n)
unfolding new
new-Follows num_columns n p = record {
  valid = new-IsStore num_columns n p;
  room = refl;
  last = rw (lt→ltb 0 n p) (sym (drop-nil (0 - n)));
}

-- From a new store of a positive capacity, any columns and frames are added, in any order, without a
-- panic: the store stays valid, and its timestamps, read from the oldest slot on, are the last ones of
-- all the frames, as many as the capacity.
pub run_calls-last_n :
    (num_columns capacity : ℕ) (calls : List Call)
    → 0 < capacity
    → (s : PmuDataStore) × (run_calls calls (new num_columns capacity) ≡ ok s)
      × IsStore s
      × (in_order s s.timestamps ≡ last_n capacity (stamps calls))
run_calls-last_n num_columns capacity calls p =
    let (s, e, follows) =
      run_calls-Follows capacity [] calls (new num_columns capacity) p
        (new-Follows num_columns capacity p) in
    (s, e, follows.valid, follows.last)
