-- ===== src/Client/Steps.antt =====
-- The rounds of the loop, by what the event is.
use pmu_data_analytics.Base.{
  ℕ, suc, ◌≡◌, refl, sym, inl, inr, Bool, true, false, not, ◌&&◌, Bool-cases, eq→==, bind_split,
  ◌==◌, ok, ◌>>=◌, List, [], ◌∷◌, ◌++◌, length, arith,
}
use pmu_data_analytics.Client.{PdcClient}
use pmu_data_analytics.Client.Stream.{
  get_buffer, ReadResult, bytes_read, read_error, timed_out, Event, control, incoming, Streaming,
  shutdown, read_frame, Next, going, broken, check_errors, take_result, handle, run_loop,
}
use pmu_data_analytics.Client.Ready.{SameSetup-trans, store_frame-IsReady}
use pmu_data_analytics.Client.Runs.{IsSound, shutdown-IsSound}

-- Whether a read gives a whole frame.
abbrev pub delivers : ℕ → ReadResult → Bool
delivers n (bytes_read buf) = not (length buf == 0) && (length buf == n)
delivers n read_error = false
delivers n timed_out = false

-- A `GetBuffer` message, or a read without a frame.
abbrev pub IsFailure : ℕ → Event → Type 0
IsFailure n (control message) = message ≡ get_buffer
IsFailure n (incoming time result) = delivers n result ≡ false

-- The reads among the events.
abbrev pub reads : List Event → ℕ
reads [] = 0
reads (control message ∷ events) = reads events
reads (incoming time result ∷ events) = suc (reads events)

pub run_loop-broken :
    (events : List Event) (s : Streaming) → run_loop events (broken s) ≡ ok (broken s)
unfolding run_loop
run_loop-broken [] s = refl
run_loop-broken (event ∷ events) s = refl

pub run_loop-append :
    (xs ys : List Event) (next : Next)
    → run_loop (xs ++ ys) next ≡ (run_loop xs next >>= run_loop ys)
unfolding run_loop
run_loop-append [] ys next = refl
run_loop-append (x ∷ xs) ys (broken s) = sym (run_loop-broken ys s)
run_loop-append (x ∷ xs) ys (going s) =
    bind_split (handle x s) (run_loop (xs ++ ys)) (run_loop xs) (run_loop ys)
      (run_loop-append xs ys)

abbrev one_more : Streaming → Streaming
one_more s = record s { consecutive_errors = suc s.consecutive_errors }

one_more-IsSound :
    (now : ℕ) (client : PdcClient) (s : Streaming)
    → IsSound now client s
    → IsSound now client (one_more s)
one_more-IsSound now client s h = record { ready = h.ready; same = h.same; all_whole = h.all_whole }

one_more-shutdown :
    (s : Streaming) → (one_more (shutdown s)).consecutive_errors ≡ suc s.consecutive_errors
unfolding shutdown
one_more-shutdown s = refl

-- A read without a frame is one more error.
pub failure-step :
    (now : ℕ) (client : PdcClient) (result : ReadResult) (s : Streaming)
    → IsSound now client s
    → delivers client.frame_size result ≡ false
    → (after : Streaming) × (take_result now (read_frame result s) ≡ ok (check_errors after))
      × (after.consecutive_errors ≡ suc s.consecutive_errors)
      × IsSound now client after
unfolding read_frame
failure-step now client read_error s h no_frame =
    (one_more s, refl, refl, one_more-IsSound now client s h)
failure-step now client timed_out s h no_frame =
    (one_more s, refl, refl, one_more-IsSound now client s h)
failure-step now client (bytes_read buf) s h no_frame = elim (Bool-cases (length buf == 0)) [
  | inl none_read ↦ (
    one_more (shutdown s),
    rw none_read refl,
    one_more-shutdown s,
    one_more-IsSound now client (shutdown s) (shutdown-IsSound now client s h),
  )
  | inr some_read ↦
      let partial : (length buf == client.frame_size) ≡ false = rw some_read at no_frame in
      (
        one_more s,
        rw (some_read, h.same.same_size, partial) refl,
        refl,
        one_more-IsSound now client s h,
      )
]

-- A whole frame resets the count.
pub frame-step :
    (now : ℕ) (client : PdcClient) (result : ReadResult) (s : Streaming)
    → IsSound now client s
    → delivers client.frame_size result ≡ true
    → (after : Streaming) × (take_result now (read_frame result s) ≡ ok (going after))
      × (after.consecutive_errors ≡ 0)
      × IsSound now client after
unfolding read_frame
frame-step now client read_error s h whole = cc
frame-step now client timed_out s h whole = cc
frame-step now client (bytes_read buf) s h whole =
    let some_read : (length buf == 0) ≡ false = ground arith in
    let len : length buf ≡ s.client.frame_size = ground (arith, h.same.same_size) in
    let (stored, run, ready, same) = store_frame-IsReady now s.client buf h.ready len in
    (
      record s { client = stored; consecutive_errors = 0 },
      rw (some_read, eq→== (length buf) s.client.frame_size len, run) refl,
      refl,
      record {
        ready = ready;
        same = SameSetup-trans client s.client stored h.same same;
        all_whole = h.all_whole;
      },
    )
