-- ===== src/Tests/Loops.antt =====
-- The loop of the client with frames of 28 bytes.
use pmu_data_analytics.Base.{
  ◌≡◌, refl, ◌⊎◌, inl, inr, true, ok, List, [], ◌∷◌, ◌++◌, replicate, arith,
}
use pmu_data_analytics.Frames.Command.{new_turn_off_transmission}
use pmu_data_analytics.Frames.Command as Command
use pmu_data_analytics.Client.Stream.{
  stop, get_buffer, bytes_read, read_error, timed_out, Event, control, incoming, Output, wrote,
  closed, Streaming, shutdown, Next, broken, started, start_stream,
}
use pmu_data_analytics.Client.Ready.{IsReady}
use pmu_data_analytics.Client.Runs.{InOrder, last_time, IsSound, streaming_of, start_stream-IsSound}
use pmu_data_analytics.Client.Ends.{HasStop, HasTenFailures, start_stream_ends}
use pmu_data_analytics.Client.Causes.{start_stream_ended}
use pmu_data_analytics.Tests.Clients.{blank, one_frame, on_stack, on_stack-IsStack}

pub on_stack-IsReady : IsReady 0 on_stack
on_stack-IsReady = record { size_pos = omega arith; holds = inl (blank, on_stack-IsStack, refl) }

-- The server closes the connection, four reads time out and five fail.
abbrev lost : List Event
lost =
    incoming 2 (bytes_read [])
    ∷ (replicate 4 (incoming 3 timed_out)
        ++ (control get_buffer ∷ replicate 5 (incoming 4 read_error)))

abbrev pub events : List Event
events = incoming 1 (bytes_read one_frame) ∷ (lost ++ (incoming 5 (bytes_read one_frame) ∷ []))

pub events-InOrder : InOrder 0 events
events-InOrder = omega arith

start_stream-IsSound_example :
    (next : Next) × (start_stream true events on_stack ≡ ok next)
    × IsSound (last_time 0 events) on_stack (streaming_of next)
start_stream-IsSound_example =
    start_stream-IsSound 0 on_stack true events on_stack-IsReady events-InOrder

lost-HasTenFailures : HasTenFailures 28 events
lost-HasTenFailures = (
  incoming 1 (bytes_read one_frame) ∷ [],
  lost,
  incoming 5 (bytes_read one_frame) ∷ [],
  refl,
  (refl, (refl, (refl, (refl, (refl, (refl, (refl, (refl, (refl, (refl, (refl, tt))))))))))),
  omega arith,
)

start_stream_ends_example :
    (end : Streaming) × (outputs : List Output) × (start_stream true events on_stack
      ≡ ok (broken end))
    × (end.outputs
        ≡ outputs
          ++ (wrote (Command.to_hex (new_turn_off_transmission end.client.idcode)) ∷ closed ∷ []))
start_stream_ends_example =
    start_stream_ends 0 on_stack events on_stack-IsReady events-InOrder (inr lost-HasTenFailures)

stopped : start_stream true (control stop ∷ []) on_stack ≡ ok (broken (shutdown (started on_stack)))
unfolding start_stream
stopped = refl

start_stream_ended_example : HasStop (control stop ∷ []) ⊎ HasTenFailures 28 (control stop ∷ [])
start_stream_ended_example =
    start_stream_ended 0 on_stack (control stop ∷ []) (shutdown (started on_stack)) on_stack-IsReady
      tt stopped
