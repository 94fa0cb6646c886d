-- ===== src/BufferServer/Service.antt =====
-- The client's stream and the handler together.
use Prim.Native.String.{String}
use pmu_data_analytics.Base.{ℕ, ◌≡◌, subst, Bool, true, ok, List, [], ◌∷◌, All, arith}
use pmu_data_analytics.Base.Bytes.{Bytes}
use pmu_data_analytics.Frames.Config.{calc_data_frame_size}
use pmu_data_analytics.Client.{PdcClient}
use pmu_data_analytics.Client.Stream.{Event, Output, wrote, closed, sent, Next, start_stream}
use pmu_data_analytics.Client.Ready.{IsReady}
use pmu_data_analytics.Client.Runs.{InOrder, IsWhole, streaming_of, start_stream-IsSound}
use pmu_data_analytics.BufferServer.{AppState, received, get_buffer_data}
use pmu_data_analytics.BufferServer.Library.{ArrowCrate, BatchLaws, WriterLaws}
use pmu_data_analytics.BufferServer.Response.{get_buffer_data-ok}

module _ (arrow : ArrowCrate) (text : Bytes → String)
    (full_name : String → ℕ → String → String) where
  -- If this output is a buffer, then the handler that receives it answers with a table.
  abbrev pub IsAnswered : AppState → Output → Type 0
  IsAnswered state (wrote bytes) = Unit
  IsAnswered state closed = Unit
  IsAnswered state (sent contents) =
      (bytes : Bytes) × (get_buffer_data arrow text full_name true (received contents) state
        ≡ ok bytes)

  outputs-IsAnswered :
      (state : AppState) (outputs : List Output)
      → BatchLaws arrow
      → WriterLaws arrow
      → state.frame_size ≡ calc_data_frame_size state.config
      → All (IsWhole state.frame_size) outputs
      → All (IsAnswered state) outputs
  outputs-IsAnswered state [] batch_laws writer_laws sized whole = tt
  outputs-IsAnswered state (wrote bytes ∷ outputs) batch_laws writer_laws sized whole =
      (tt, outputs-IsAnswered state outputs batch_laws writer_laws sized whole.1)
  outputs-IsAnswered state (closed ∷ outputs) batch_laws writer_laws sized whole =
      (tt, outputs-IsAnswered state outputs batch_laws writer_laws sized whole.1)
  outputs-IsAnswered state (sent contents ∷ outputs) batch_laws writer_laws sized whole =
      let (arrays, batch, writer, written, bytes, e, shape, made, wrote_it, finished) =
        get_buffer_data-ok arrow text full_name state contents batch_laws writer_laws sized
          (omega (arith, whole.0)) in
      ((bytes, e), outputs-IsAnswered state outputs batch_laws writer_laws sized whole.1)

  pub start_stream-IsAnswered :
      (state : AppState) (client : PdcClient) (now : ℕ) (on : Bool) (events : List Event)
      → BatchLaws arrow
      → WriterLaws arrow
      → state.frame_size ≡ calc_data_frame_size state.config
      → client.frame_size ≡ state.frame_size
      → IsReady now client
      → InOrder now events
      → (next : Next) × (start_stream on events client ≡ ok next)
        × All (IsAnswered state) (streaming_of next).outputs
  start_stream-IsAnswered state client now on events batch_laws writer_laws sized same ready order =
      let (next, e, sound) = start_stream-IsSound now client on events ready order in
      (
        next,
        e,
        outputs-IsAnswered state (streaming_of next).outputs batch_laws writer_laws sized
            (subst (λ n. All (IsWhole n) (streaming_of next).outputs) same sound.all_whole),
      )
