-- ===== src/FrameBuffer/Recent.antt =====
-- src/frame_buffer.rs, `get_last_n_seconds` and `get_column_slice`: a slice is an end of the history.
use Prim.Native.String.{String}
