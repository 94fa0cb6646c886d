-- ===== src/BufferServer/Response.antt =====
-- What the handler answers.
use Prim.Native.String.{String}
use pmu_data_analytics.Base.{
  ℕ, ◌/◌, ◌%◌, ◌<◌, ◌≡◌, refl, ap, sym, subst, ok, true, List, ◌∷◌, length, some, arith,
}
use pmu_data_analytics.Base.Bytes.{Bytes}
use pmu_data_analytics.Base.Maps.{Entries}
use pmu_data_analytics.Frames.Config.{calc_data_frame_size}
use pmu_data_analytics.Frames.Config.Sizes.{calc_data_frame_size-ge}
use pmu_data_analytics.Frames.Channels.{ChannelInfo, get_channel_map}
use pmu_data_analytics.Frames.Channels.Fits.{FitsFrame, get_channel_map-fits}
use pmu_data_analytics.Arrow.{
  Array, timestamp_array, timestamp_type, channel_fields, build_arrow_schema,
}
use pmu_data_analytics.Arrow.Shape.{HasShape}
use pmu_data_analytics.BufferServer.{AppState, received, respond_with, get_buffer_data}
use pmu_data_analytics.BufferServer.Library.{ArrowCrate, BatchLaws, WriterLaws}
use pmu_data_analytics.BufferServer.Columns.{extra_short, arrays_of-ok}

module _ (arrow : ArrowCrate) (text : Bytes → String)
    (full_name : String → ℕ → String → String) where
  -- A configuration, and a buffer that the client sent, in a state with the size of the
  -- configuration's data frames: if the rest of the buffer behind its whole frames is shorter than
  -- the 14 bytes that hold a time, then the handler does not panic, and answers with the bytes of a
  -- table that has the fields of the schema, their types, and one row for each whole frame.
  pub get_buffer_data-ok :
      (state : AppState) (buffer : Bytes)
      → BatchLaws arrow
      → WriterLaws arrow
      → state.frame_size ≡ calc_data_frame_size state.config
      → length buffer % state.frame_size < 14
      → (arrays : List Array) × (batch : arrow.Batch) × (writer : arrow.Writer)
        × (written : arrow.Writer) × (bytes : Bytes) × (get_buffer_data arrow text full_name true
              (received buffer)
              state
            ≡ ok bytes)
        × HasShape
            (length buffer / state.frame_size)
            (build_arrow_schema (get_channel_map text full_name state.config))
            arrays
        × (arrow.try_new_batch
              (build_arrow_schema (get_channel_map text full_name state.config))
              arrays
            ≡ some batch)
        × (arrow.write writer batch ≡ some written)
        × (arrow.finish written ≡ some bytes)
  unfolding get_buffer_data build_arrow_schema respond_with
  get_buffer_data-ok state buffer batch_laws writer_laws sized whole =
      let channel_map : List (String × ChannelInfo) = get_channel_map text full_name state.config in
      let (timestamps, arrays, e, count, shape) =
        arrays_of-ok buffer state.frame_size channel_map
          (omega (arith, calc_data_frame_size-ge state.config))
          (subst (λ n. Entries (FitsFrame n) channel_map) (sym sized)
            (get_channel_map-fits text full_name state.config)) in
      let rows : length timestamps ≡ length buffer / state.frame_size =
        omega (arith, count, extra_short (length buffer % state.frame_size) whole) in
      let table : HasShape (length buffer / state.frame_size) (build_arrow_schema channel_map)
          (timestamp_array timestamps ∷ arrays) =
        record {
          types = ap (λ types. timestamp_type ∷ types) shape.types;
          all_rows = (rows, shape.all_rows);
        } in
      let (batch, made) = batch_laws.accepts _ _ (channel_fields channel_map) _ table in
      let (writer, written, bytes, e₁, e₂, e₃) = writer_laws.encodes _ _ batch made in
      (
        timestamp_array timestamps ∷ arrays,
        batch,
        writer,
        written,
        bytes,
        rw (e, made, e₁, e₂, e₃) refl,
        table,
        made,
        e₂,
        e₃,
      )
