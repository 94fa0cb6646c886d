-- ===== src/Client/Runs.antt =====
-- Runs of the client's loop from a client that is ready.
use pmu_data_analytics.Base.{
  ℕ, suc, ◌%◌, ◌≤◌, ◌≡◌, refl, subst, ◌⊎◌, inl, inr, Bool, true, false, Bool-cases, leb, ◌==◌, Run,
  ok, List, [], ◌∷◌, ◌++◌, length, All, All-append, arith,
}
use pmu_data_analytics.Base.Bytes.{Bytes}
use pmu_data_analytics.Client.{PdcClient}
use pmu_data_analytics.Client.Stream.{
  stop, get_buffer, ReadResult, bytes_read, read_error, timed_out, Event, control, incoming, Output,
  wrote, closed, sent, Streaming, shutdown, frame_read, no_frame, frame_error, read_frame, Next,
  going, broken, check_errors, take_result, handle, run_loop, finish, started, start_stream,
}
use pmu_data_analytics.Client.Ready.{
  IsReady, SameSetup, SameSetup-refl, SameSetup-trans, IsReady-later, store_frame-IsReady,
  get_buffer_contents-IsReady, cleared-IsReady,
}

-- Every buffer that was sent has a number of whole frames.
abbrev pub IsWhole : ℕ → Output → Type 0
IsWhole n (sent contents) = length contents % n ≡ 0
IsWhole n (wrote bytes) = Unit
IsWhole n closed = Unit

-- Where a run from `client` may get to: a client of the same setup that is ready.
pub record IsSound (now : ℕ) (client : PdcClient) (s : Streaming) : Type 0 where
  pub ready : IsReady now s.client
  pub same : SameSetup client s.client
  pub all_whole : All (IsWhole client.frame_size) s.outputs

abbrev pub streaming_of : Next → Streaming
streaming_of (going s) = s
streaming_of (broken s) = s

-- The clock does not go back between the reads.
abbrev pub InOrder : ℕ → List Event → Type 0
InOrder now [] = Unit
InOrder now (control message ∷ events) = InOrder now events
InOrder now (incoming time result ∷ events) = (now ≤ time) × InOrder time events

pub shutdown-IsSound :
    (now : ℕ) (client : PdcClient) (s : Streaming)
    → IsSound now client s
    → IsSound now client (shutdown s)
unfolding shutdown
shutdown-IsSound now client s h = record {
  ready = cleared-IsReady now s.client h.ready;
  same =
      SameSetup-trans client s.client _ h.same
        (record { same_size = refl; same_config = refl; same_idcode = refl });
  all_whole = All-append (IsWhole client.frame_size) s.outputs _ h.all_whole (tt, (tt, tt));
}

-- The result of a read is a frame of the frame size, or none.
pub read_frame-IsSound :
    (now : ℕ) (client : PdcClient) (result : ReadResult) (s : Streaming)
    → IsSound now client s
    → ((frame : Bytes) × (after : Streaming) × (read_frame result s ≡ (frame_read frame, after))
        × (length frame ≡ after.client.frame_size)
        × IsSound now client after)
      ⊎ ((after : Streaming) × ((read_frame result s ≡ (no_frame, after))
            ⊎ (read_frame result s ≡ (frame_error, after)))
          × (after.consecutive_errors ≡ s.consecutive_errors)
          × IsSound now client after)
unfolding read_frame shutdown
read_frame-IsSound now client read_error s h = inr (s, inr refl, refl, h)
read_frame-IsSound now client timed_out s h = inr (s, inl refl, refl, h)
read_frame-IsSound now client (bytes_read buf) s h = elim (Bool-cases (length buf == 0)) [
  | inl none_read ↦ inr (shutdown s, inr (rw none_read refl), refl, shutdown-IsSound now client s h)
  | inr some_read ↦ elim (Bool-cases (length buf == s.client.frame_size)) [
    | inl whole ↦ inl (buf, s, rw (some_read, whole) refl, ground arith, h)
    | inr partial ↦ inr (s, inl (rw (some_read, partial) refl), refl, h)
  ]
]

pub check_errors-IsSound :
    (now : ℕ) (client : PdcClient) (s : Streaming)
    → IsSound now client s
    → IsSound now client (streaming_of (check_errors s))
check_errors-IsSound now client s h = elim (Bool-cases (leb 10 s.consecutive_errors)) [
  | inl many ↦ rw many h
  | inr few ↦ rw few h
]

-- A run of a step that does not panic, and ends in a sound state.
abbrev pub Steps : ℕ → PdcClient → Run Next → Type 0
Steps now client run = (next : Next) × (run ≡ ok next) × IsSound now client (streaming_of next)

pub take_result-Steps :
    (now : ℕ) (client : PdcClient) (result : ReadResult) (s : Streaming)
    → IsSound now client s
    → Steps now client (take_result now (read_frame result s))
take_result-Steps now client result s h = elim (read_frame-IsSound now client result s h) [
  | inl (frame, after, e, len, sound) ↦
      let (stored, run, ready, same) = store_frame-IsReady now after.client frame sound.ready len in
      let next : Streaming = record after { client = stored; consecutive_errors = 0 } in
      (
        check_errors next,
        rw (e, run) refl,
        check_errors-IsSound now client next (record {
          ready = ready;
          same = SameSetup-trans client after.client stored sound.same same;
          all_whole = sound.all_whole;
        }),
      )
  | inr (after, e, errors, sound) ↦
      let next : Streaming = record after { consecutive_errors = suc after.consecutive_errors } in
      (
        check_errors next,
        elim e [ inl partial ↦ rw partial refl | inr failed ↦ rw failed refl ],
        check_errors-IsSound now client next
            (record { ready = sound.ready; same = sound.same; all_whole = sound.all_whole }),
      )
]

pub get_buffer-Steps :
    (now : ℕ) (client : PdcClient) (s : Streaming)
    → IsSound now client s
    → (next : Streaming) × (handle (control get_buffer) s ≡ ok (going next))
      × (next.consecutive_errors ≡ s.consecutive_errors)
      × IsSound now client next
unfolding handle
get_buffer-Steps now client s h =
    let (contents, e, whole) = get_buffer_contents-IsReady now s.client h.ready in
    (
      record s { outputs = s.outputs ++ (sent contents ∷ []) },
      rw e refl,
      refl,
      record {
        ready = h.ready;
        same = h.same;
        all_whole =
            All-append (IsWhole client.frame_size) s.outputs _ h.all_whole
              (subst (λ n. length contents % n ≡ 0) h.same.same_size whole, tt);
      },
    )

pub IsSound-later :
    (now later : ℕ) (client : PdcClient) (s : Streaming)
    → now ≤ later
    → IsSound now client s
    → IsSound later client s
IsSound-later now later client s l h = record {
  ready = IsReady-later now later s.client l h.ready;
  same = h.same;
  all_whole = h.all_whole;
}

-- The time of the last read.
abbrev pub last_time : ℕ → List Event → ℕ
last_time now [] = now
last_time now (control message ∷ events) = last_time now events
last_time now (incoming time result ∷ events) = last_time time events

last_time-ge : (now : ℕ) (events : List Event) → InOrder now events → now ≤ last_time now events
last_time-ge now [] order = omega arith
last_time-ge now (control message ∷ events) order = last_time-ge now events order
last_time-ge now (incoming time result ∷ events) order =
    omega (arith, order.0, last_time-ge time events order.1)

pub run_loop-IsSound :
    (now : ℕ) (client : PdcClient) (events : List Event) (next : Next)
    → InOrder now events
    → IsSound now client (streaming_of next)
    → Steps (last_time now events) client (run_loop events next)
unfolding run_loop handle
run_loop-IsSound now client [] next order h = (next, refl, h)
run_loop-IsSound now client (event ∷ events) (broken s) order h = (
  broken s,
  refl,
  IsSound-later now (last_time now (event ∷ events)) client s
      (last_time-ge now (event ∷ events) order) h,
)
run_loop-IsSound now client (control stop ∷ events) (going s) order h =
    run_loop-IsSound now client events (broken s) order h
run_loop-IsSound now client (control get_buffer ∷ events) (going s) order h =
    let (next, e, errors, sound) = get_buffer-Steps now client s h in
    let (end, run, sound_end) = run_loop-IsSound now client events (going next) order sound in
    (end, rw e run, sound_end)
run_loop-IsSound now client (incoming time result ∷ events) (going s) order h =
    let (next, e, sound) =
      take_result-Steps time client result s (IsSound-later now time client s order.0 h) in
    let (end, run, sound_end) = run_loop-IsSound time client events next order.1 sound in
    (end, rw e run, sound_end)

finish-IsSound :
    (now : ℕ) (client : PdcClient) (next : Next)
    → IsSound now client (streaming_of next)
    → IsSound now client (streaming_of (finish next))
finish-IsSound now client (going s) h = h
finish-IsSound now client (broken s) h = shutdown-IsSound now client s h

-- From a client that is ready, with a clock that does not go back, the stream does not panic, whatever
-- the events are and whether or not its first command could be written: the client stays ready, with
-- its configuration and its frame size, and every buffer that it sent is a number of whole frames.
pub start_stream-IsSound :
    (now : ℕ) (client : PdcClient) (turned_on : Bool) (events : List Event)
    → IsReady now client
    → InOrder now events
    → (next : Next) × (start_stream turned_on events client ≡ ok next)
      × IsSound (last_time now events) client (streaming_of next)
unfolding start_stream
start_stream-IsSound now client false events h order =
    let unsent : Streaming = record (started client) { outputs = [] } in
    (
      broken (shutdown unsent),
      refl,
      shutdown-IsSound (last_time now events) client unsent (record {
        ready = IsReady-later now (last_time now events) client (last_time-ge now events order) h;
        same = SameSetup-refl client;
        all_whole = tt;
      }),
    )
start_stream-IsSound now client true events h order =
    let (next, e, sound) =
      run_loop-IsSound now client events (going (started client)) order
        (record { ready = h; same = SameSetup-refl client; all_whole = (tt, tt) }) in
    (finish next, rw e refl, finish-IsSound (last_time now events) client next sound)
