-- ===== src/BufferServer.antt =====
-- src/pdc_buffer_server.rs: the handler of `/data`. What the channels of the client answer is an
-- argument, and the arrow crate is a parameter: a table is made of the fields and the arrays, and a
-- writer turns a table into bytes.
pub mod Library
pub mod Columns
pub mod Response
pub mod Times
pub mod Settings
pub mod Setup
pub mod Service
use Prim.Native.String.{String}
use pmu_data_analytics.Base.{
  ℕ, ◌+◌, ◌*◌, Outcome, Run, ok, err, panic, ◌>>=◌, ensure, Bool, leb, if◌then◌else◌, List, [], ◌∷◌,
  ◌++◌, length, Option, none, some,
}
use pmu_data_analytics.Base.Bytes.{Bytes, u32_at}
use pmu_data_analytics.Frames.Config.{ConfigurationFrame}
use pmu_data_analytics.Frames.Channels.{ChannelInfo, get_channel_map}
use pmu_data_analytics.Arrow.{
  Field, Array, timestamp_array, build_arrow_schema, frames_of, extract_channel_values,
}
use pmu_data_analytics.BufferServer.Library.{ArrowCrate}

-- The sender of the state is the argument `sent` of the handler.
pub record AppState : Type 0 where
  pub config : ConfigurationFrame
  pub frame_size : ℕ

-- The errors among the answers; the success is `StatusCode::OK`.
pub data StatusCode : Type 0 where
  internal_server_error request_timeout : StatusCode

-- What `timeout(.., rx.recv())` returns: a buffer, the end of the channel, or no answer in time.
pub data Received : Type 0 where
  received : Bytes → Received
  channel_closed elapsed : Received

-- A panic stays a panic where a status may be returned.
abbrev pub lift : {E A : Type 0} → Run A → Outcome E A
lift (ok a) = ok a
lift panic = panic
lift (err e) = absurd e

-- `.map_err(|_| StatusCode::INTERNAL_SERVER_ERROR)?`
abbrev pub or_internal_error : {A : Type 0} → Option A → Outcome StatusCode A
or_internal_error none = err internal_server_error
or_internal_error (some a) = ok a

abbrev pub receive : Received → Outcome StatusCode Bytes
receive (received buffer) = ok buffer
receive channel_closed = err internal_server_error
receive elapsed = err request_timeout

-- `(soc as i64) * 1_000_000 + (fracsec as i64)`
unfoldable pub timestamp_of : Bytes → Run ℕ
timestamp_of frame = do
  soc ← u32_at frame 6
  fracsec ← u32_at frame 10
  ok (soc * 1000000 + fracsec)

-- A frame that is too short for a time is passed over.
unfoldable pub timestamps_of : List Bytes → Run (List ℕ)
unfolding timestamp_of
timestamps_of [] = ok []
timestamps_of (frame ∷ frames) =
    let rest = timestamps_of frames in
    if leb 14 (length frame)
    then (do timestamp ← timestamp_of frame; timestamps ← rest; ok (timestamp ∷ timestamps))
    else rest

-- `for (_, info) in &channel_map`
unfoldable pub extract_all : Bytes → ℕ → List (String × ChannelInfo) → Run (List Array)
unfolding extract_channel_values
extract_all buffer frame_size [] = ok []
extract_all buffer frame_size ((name, info) ∷ channels) = do
  channel_arrays ← extract_channel_values buffer frame_size info
  arrays ← extract_all buffer frame_size channels
  ok (channel_arrays ++ arrays)

-- The arrays of the table: the timestamps, then the channels.
unfoldable pub arrays_of : Bytes → ℕ → List (String × ChannelInfo) → Run (List Array)
unfolding frames_of timestamps_of extract_all
arrays_of buffer frame_size channel_map = do
  frames ← frames_of frame_size buffer
  timestamps ← timestamps_of frames
  channel_arrays ← extract_all buffer frame_size channel_map
  ok (timestamp_array timestamps ∷ channel_arrays)

module _ (arrow : ArrowCrate) (text : Bytes → String)
    (full_name : String → ℕ → String → String) where
  -- `RecordBatch::try_new` and the writer.
  unfoldable pub respond_with : List Field → List Array → Outcome StatusCode Bytes
  respond_with schema arrays = do
    record_batch ← or_internal_error (arrow.try_new_batch schema arrays)
    writer ← or_internal_error (arrow.try_new_writer schema)
    written ← or_internal_error (arrow.write writer record_batch)
    or_internal_error (arrow.finish written)

  unfoldable pub get_buffer_data : Bool → Received → AppState → Outcome StatusCode Bytes
  unfolding build_arrow_schema arrays_of respond_with
  get_buffer_data sent answer state = do
    _ ← ensure sent internal_server_error
    buffer ← receive answer
    arrays ← lift (arrays_of buffer state.frame_size (get_channel_map text full_name state.config))
    respond_with (build_arrow_schema (get_channel_map text full_name state.config)) arrays
