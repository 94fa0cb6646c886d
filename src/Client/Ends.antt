-- ===== src/Client/Ends.antt =====
-- When the client's loop ends.
use native.Mathlib.Decide.{dec_lt}
use pmu_data_analytics.Base.{
  ℕ, ◌+◌, ◌≤◌, ◌<◌, ◌≡◌, refl, ap, subst, ◌∙◌, ◌⊎◌, inl, inr, true, le→leb, lt→leb, ok, List, [],
  ◌∷◌, ◌++◌, All, arith,
}
use pmu_data_analytics.Frames.Command.{new_turn_off_transmission}
use pmu_data_analytics.Frames.Command as Command
use pmu_data_analytics.Client.{PdcClient}
use pmu_data_analytics.Client.Stream.{
  stop, get_buffer, Event, control, incoming, Output, wrote, closed, Streaming, shutdown, Next,
  going, broken, check_errors, handle, run_loop, started, start_stream,
}
use pmu_data_analytics.Client.Ready.{IsReady, SameSetup-refl}
use pmu_data_analytics.Client.Runs.{
  IsSound, IsSound-later, InOrder, last_time, streaming_of, get_buffer-Steps, run_loop-IsSound,
}
use pmu_data_analytics.Client.Steps.{
  IsFailure, reads, run_loop-broken, run_loop-append, failure-step,
}

-- Somewhere among the events there is a `Stop`.
abbrev pub HasStop : List Event → Type 0
HasStop events =
    (before : List Event) × (after : List Event) × (events ≡ before ++ (control stop ∷ after))

-- Somewhere among the events ten reads in a row give no frame, with nothing but `GetBuffer` messages
-- between them.
abbrev pub HasTenFailures : ℕ → List Event → Type 0
HasTenFailures n events =
    (before : List Event) × (block : List Event) × (after : List Event) × (events
      ≡ before ++ (block ++ after))
    × All (IsFailure n) block
    × (10 ≤ reads block)

pub few_errors : (s : Streaming) → s.consecutive_errors < 10 → check_errors s ≡ going s
few_errors s h = rw (lt→leb 10 s.consecutive_errors h) refl

pub many_errors : (s : Streaming) → 10 ≤ s.consecutive_errors → check_errors s ≡ broken s
many_errors s h = rw (le→leb 10 s.consecutive_errors h) refl

InOrder-append :
    (now : ℕ) (xs ys : List Event)
    → InOrder now (xs ++ ys)
    → InOrder now xs × InOrder (last_time now xs) ys
InOrder-append now [] ys h = (tt, h)
InOrder-append now (control message ∷ xs) ys h = InOrder-append now xs ys h
InOrder-append now (incoming time result ∷ xs) ys h =
    let (first, second) = InOrder-append time xs ys h.1 in ((h.0, first), second)

-- Enough reads without a frame end the loop.
block-ends :
    (now : ℕ) (client : PdcClient) (block : List Event) (s : Streaming)
    → InOrder now block
    → IsSound now client s
    → All (IsFailure client.frame_size) block
    → 0 < reads block
    → 10 ≤ s.consecutive_errors + reads block
    → (end : Streaming) × (run_loop block (going s) ≡ ok (broken end))
unfolding run_loop handle
block-ends now client [] s order h fails some_read many = absurd (omega arith)
block-ends now client (control stop ∷ block) s order h fails some_read many =
    (s, run_loop-broken block s)
block-ends now client (control get_buffer ∷ block) s order h fails some_read many =
    let (next, e, errors, sound) = get_buffer-Steps now client s h in
    let (end, run) =
      block-ends now client block next order sound fails.1 some_read
        (omega (arith, errors, many)) in
    (end, rw e run)
block-ends now client (incoming time result ∷ block) s order h fails some_read many =
    let (after, e, errors, sound) =
      failure-step time client result s (IsSound-later now time client s order.0 h) fails.0 in
    elim (dec_lt after.consecutive_errors 10) [
      | yes still_few ↦
          let (end, run) =
            block-ends time client block after order.1 sound fails.1 (omega (arith, errors, many))
              (omega (arith, errors, many)) in
          (end, rw (e, few_errors after still_few) run)
      | no enough ↦ (after, rw (e, many_errors after (omega arith)) (run_loop-broken block after))
    ]

next-ends :
    (now : ℕ) (client : PdcClient) (block : List Event) (next : Next)
    → InOrder now block
    → IsSound now client (streaming_of next)
    → All (IsFailure client.frame_size) block
    → 10 ≤ reads block
    → (end : Streaming) × (run_loop block next ≡ ok (broken end))
next-ends now client block (broken s) order h fails many = (s, run_loop-broken block s)
next-ends now client block (going s) order h fails many =
    block-ends now client block s order h fails (omega (arith, many)) (omega (arith, many))

stop-ends :
    (after : List Event) (next : Next)
    → (end : Streaming) × (run_loop (control stop ∷ after) next ≡ ok (broken end))
unfolding run_loop handle
stop-ends after (broken s) = (s, refl)
stop-ends after (going s) = (s, run_loop-broken after s)

-- Where the loop ends within the events, whatever comes behind does not matter.
run_loop-ends :
    (now : ℕ) (client : PdcClient) (events : List Event) (s : Streaming)
    → InOrder now events
    → IsSound now client s
    → HasStop events ⊎ HasTenFailures client.frame_size events
    → (end : Streaming) × (run_loop events (going s) ≡ ok (broken end))
run_loop-ends now client events s order h (inl (before, after, split)) =
    let order_split : InOrder now (before ++ (control stop ∷ after)) =
      subst (InOrder now) split order in
    let (order₁, order₂) = InOrder-append now before (control stop ∷ after) order_split in
    let (next, e, sound) = run_loop-IsSound now client before (going s) order₁ h in
    let (end, stopped) = stop-ends after next in
    (
      end,
      ap (λ es. run_loop es (going s)) split
          ∙ run_loop-append before (control stop ∷ after) (going s)
          ∙ rw e stopped,
    )
run_loop-ends now client events s order h (inr (before, block, after, split, fails, many)) =
    let order_split : InOrder now (before ++ (block ++ after)) = subst (InOrder now) split order in
    let (order₁, order₂) = InOrder-append now before (block ++ after) order_split in
    let (order₃, order₄) = InOrder-append (last_time now before) block after order₂ in
    let (next, e, sound) = run_loop-IsSound now client before (going s) order₁ h in
    let (end, ended) = next-ends (last_time now before) client block next order₃ sound fails many in
    (
      end,
      ap (λ es. run_loop es (going s)) split
          ∙ run_loop-append before (block ++ after) (going s)
          ∙ rw e (run_loop-append block after next ∙ rw ended (run_loop-broken after end)),
    )

-- From a client that is ready, with a clock that does not go back and the first command written: if
-- there is a `Stop` among the events, or ten reads in a row without a whole frame and with nothing but
-- `GetBuffer` messages between them, then the stream has ended, and its last outputs are the command
-- that turns the transmission off and the end of the connection.
pub start_stream_ends :
    (now : ℕ) (client : PdcClient) (events : List Event)
    → IsReady now client
    → InOrder now events
    → HasStop events ⊎ HasTenFailures client.frame_size events
    → (end : Streaming) × (outputs : List Output) × (start_stream true events client
        ≡ ok (broken end))
      × (end.outputs
          ≡ outputs
            ++ (wrote (Command.to_hex (new_turn_off_transmission end.client.idcode)) ∷ closed ∷ []))
unfolding start_stream shutdown
start_stream_ends now client events h order cause =
    let (end, e) =
      run_loop-ends now client events (started client) order
        (record { ready = h; same = SameSetup-refl client; all_whole = (tt, tt) }) cause in
    (shutdown end, end.outputs, rw e refl, refl)
