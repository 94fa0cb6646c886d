-- ===== src/Client/Stream.antt =====
-- src/pdc_client.rs, `read_frame`, `shutdown` and `start_stream`: the client's loop. Each round of the
-- loop takes one event, and what the client writes, sends and closes is kept in order.
use pmu_data_analytics.Base.{
  ℕ, suc, Bool, leb, ◌==◌, if◌then◌else◌, Run, ok, ◌>>=◌, List, [], ◌∷◌, ◌++◌, length,
}
use pmu_data_analytics.Base.Bytes.{Bytes}
use pmu_data_analytics.Frames.Command.{new_turn_on_transmission, new_turn_off_transmission}
use pmu_data_analytics.Frames.Command as Command
use pmu_data_analytics.Client.{PdcClient, cleared, store_frame, get_buffer_contents}

pub data ControlMessage : Type 0 where
  stop get_buffer : ControlMessage

-- What the read of a buffer of the size of a frame gives within its second: the bytes that it read,
-- none of them when the server has closed the connection, an error, or nothing in time.
pub data ReadResult : Type 0 where
  bytes_read : Bytes → ReadResult
  read_error timed_out : ReadResult

-- A message of the control channel, or the end of a read, with the time that the clock shows.
pub data Event : Type 0 where
  control : ControlMessage → Event
  incoming : ℕ → ReadResult → Event

-- What others see of the client: bytes written to the server, the end of the connection, and buffers
-- sent to the channel of data. That one of these fails is only printed.
pub data Output : Type 0 where
  wrote : Bytes → Output
  closed : Output
  sent : Bytes → Output

pub record Streaming : Type 0 where
  pub client : PdcClient
  pub outputs : List Output
  pub consecutive_errors : ℕ

unfoldable pub shutdown : Streaming → Streaming
shutdown s = record s {
  client = record s.client { buffer = cleared s.client.buffer };
  outputs =
      s.outputs
      ++ (wrote (Command.to_hex (new_turn_off_transmission s.client.idcode)) ∷ closed ∷ []);
}

-- `Ok(Some(frame))`, `Ok(None)` or `Err(_)`
pub data FrameResult : Type 0 where
  frame_read : Bytes → FrameResult
  no_frame frame_error : FrameResult

unfoldable pub read_frame : ReadResult → Streaming → FrameResult × Streaming
unfolding shutdown
read_frame (bytes_read buf) s =
    if length buf == 0
    then (frame_error, shutdown s)
    else (if length buf == s.client.frame_size then (frame_read buf, s) else (no_frame, s))
read_frame read_error s = (frame_error, s)
read_frame timed_out s = (no_frame, s)

-- Another round, or the end of the loop.
pub data Next : Type 0 where
  going : Streaming → Next
  broken : Streaming → Next

abbrev pub max_consecutive_errors : ℕ
max_consecutive_errors = 10

-- The end of the branch of a read.
abbrev pub check_errors : Streaming → Next
check_errors s = if leb max_consecutive_errors s.consecutive_errors then broken s else going s

-- `match result`
abbrev pub take_result : ℕ → FrameResult × Streaming → Run Next
take_result now (frame_read frame, s) = do
  stored ← store_frame now s.client frame
  ok (check_errors (record s { client = stored; consecutive_errors = 0 }))
take_result now (no_frame, s) =
    ok (check_errors (record s { consecutive_errors = suc s.consecutive_errors }))
take_result now (frame_error, s) =
    ok (check_errors (record s { consecutive_errors = suc s.consecutive_errors }))

-- One round of `tokio::select!`.
unfoldable pub handle : Event → Streaming → Run Next
unfolding read_frame
handle (control stop) s = ok (broken s)
handle (control get_buffer) s = do
  contents ← get_buffer_contents s.client
  ok (going (record s { outputs = s.outputs ++ (sent contents ∷ []) }))
handle (incoming now result) s = take_result now (read_frame result s)

-- The loop, over the events so far.
unfoldable pub run_loop : List Event → Next → Run Next
unfolding handle
run_loop [] next = ok next
run_loop (event ∷ events) (broken s) = ok (broken s)
run_loop (event ∷ events) (going s) = do next ← handle event s; run_loop events next

-- Behind the loop.
abbrev pub finish : Next → Next
finish (going s) = going s
finish (broken s) = broken (shutdown s)

abbrev pub started : PdcClient → Streaming
started client = record {
  client = client;
  outputs = wrote (Command.to_hex (new_turn_on_transmission client.idcode)) ∷ [];
  consecutive_errors = 0;
}

-- `turned_on` says whether the first command could be written.
unfoldable pub start_stream : Bool → List Event → PdcClient → Run Next
unfolding run_loop shutdown
start_stream turned_on events client =
    if turned_on
    then (do next ← run_loop events (going (started client)); ok (finish next))
    else ok (broken (shutdown (record (started client) { outputs = [] })))
