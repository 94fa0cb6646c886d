-- ===== src/Client.antt =====
-- src/pdc_client.rs: the ring of raw frames that the client keeps. The record leaves out the socket
-- and the channels; a `SystemTime` and a `Duration` are numbers of nanoseconds, and the time that the
-- clock shows is an argument.
pub mod Store
pub mod Clock
pub mod Connect
pub mod Stream
pub mod Ready
pub mod Runs
pub mod Steps
pub mod Ends
pub mod Causes
pub mod Replies
pub mod Start
use pmu_data_analytics.Base.{
  Run, ℕ, ◌+◌, ◌-◌, ◌*◌, ◌/◌, ◌^◌, Bool, ◌&&◌, leb, ltb, ◌==◌, if◌then◌else◌, List, [], ◌∷◌, ◌++◌,
  map, length, take, drop, concat, replicate, Option, none, some, nat_abs, ok, panic, ◌>>=◌,
}
use pmu_data_analytics.Base.Bytes.{Bytes, slice}
use pmu_data_analytics.Base.Words.{Build, word}
use pmu_data_analytics.Frames.Config.{
  PmuConfigurationFrame, ConfigurationFrame, phasor_size, freq_dfreq_size, analog_size,
}

pub data BufferType : Type 0 where
  stack : Bytes → BufferType
  heap : List (ℕ × Bytes) → BufferType

pub record PdcClient : Type 0 where
  pub buffer : BufferType
  pub duration : ℕ
  pub max_buffer_size : ℕ
  pub frame_size : ℕ
  pub write_offset : ℕ
  pub idcode : ℕ
  pub config : Option ConfigurationFrame

-- `30 * 1024`
abbrev pub stack_size : ℕ
stack_size = 30720

-- The loop of `calculate_frame_size`, one addition after the other.
unfoldable pub add_frame_sizes : ℕ → List PmuConfigurationFrame → ℕ
add_frame_sizes size [] = size
add_frame_sizes size (c ∷ cs) =
    let after_stat = size + 2 in
    let after_phasors = after_stat + phasor_size c * c.phnmr in
    let after_freq = after_phasors + 2 * freq_dfreq_size c in
    let after_analog = after_freq + analog_size c * c.annmr in
    add_frame_sizes (after_analog + 2 * c.dgnmr) cs

unfoldable pub calculate_frame_size : Option ConfigurationFrame → ℕ
unfolding add_frame_sizes
calculate_frame_size none = 0
calculate_frame_size (some config) = add_frame_sizes (14 + 2) config.pmu_configs

-- `as_secs`
abbrev pub as_secs : ℕ → ℕ
as_secs duration = duration / 10 ^ 9

-- The bytes of an entry of the heap: a `SystemTime` of 16, and a `Vec` of 24.
abbrev pub entry_size : ℕ
entry_size = 40

-- `VecDeque::with_capacity` panics on a capacity of more than `isize::MAX` bytes.
unfoldable pub new_heap : ℕ → Run BufferType
new_heap total_frames = if ltb (entry_size * total_frames) (2 ^ 63) then ok (heap []) else panic

unfoldable pub sized_buffer : BufferType → ℕ → ℕ → Run BufferType
unfolding new_heap
sized_buffer buffer total_frames max_size =
    if ltb stack_size max_size then new_heap total_frames else ok buffer

abbrev pub initialize_with : Build → PdcClient → Option ConfigurationFrame → Run PdcClient
initialize_with build client none = ok client
initialize_with build client (some config) = do
  total_frames ← word build 64 (nat_abs config.data_rate * as_secs client.duration)
  max_size ← word build 64 (calculate_frame_size (some config) * total_frames)
  buffer ← sized_buffer client.buffer total_frames max_size
  ok (record client {
    frame_size = calculate_frame_size (some config);
    max_buffer_size = max_size;
    buffer = buffer;
  })

unfoldable pub initialize_buffer : Build → PdcClient → Run PdcClient
initialize_buffer build client = initialize_with build client client.config

-- `buffer[o..o + n].copy_from_slice(data)`: the range has to be in the buffer, and of the length of
-- the data.
unfoldable pub copy_from_slice : Bytes → ℕ → ℕ → Bytes → Run Bytes
copy_from_slice memory o n frame_data =
    if leb (o + n) (length memory) && (length frame_data == n)
    then ok (take o memory ++ (frame_data ++ drop (o + n) memory))
    else panic

-- The loop that removes old frames from the front; `duration_since` fails for a time that is still
-- to come.
unfoldable pub expire : ℕ → ℕ → List (ℕ × Bytes) → Run (List (ℕ × Bytes))
expire now duration [] = ok []
expire now duration ((timestamp, frame) ∷ rest) =
    let later = expire now duration rest in
    if leb timestamp now
    then (if ltb duration (now - timestamp) then later else ok ((timestamp, frame) ∷ rest))
    else panic

-- Where the next frame goes: at the start again, if it does not fit.
abbrev pub next_offset : PdcClient → ℕ
next_offset client =
    if ltb client.max_buffer_size (client.write_offset + client.frame_size)
    then 0
    else client.write_offset

abbrev pub store_in : ℕ → PdcClient → Bytes → BufferType → Run PdcClient
store_in now client frame_data (stack memory) = do
  written ← copy_from_slice memory (next_offset client) client.frame_size frame_data
  ok (record client {
    buffer = stack written;
    write_offset = next_offset client + client.frame_size;
  })
store_in now client frame_data (heap frames) = do
  kept ← expire now client.duration (frames ++ ((now, frame_data) ∷ []))
  ok (record client { buffer = heap kept })

unfoldable pub store_frame : ℕ → PdcClient → Bytes → Run PdcClient
unfolding copy_from_slice expire
store_frame now client frame_data = store_in now client frame_data client.buffer

abbrev pub contents_of : ℕ → BufferType → Run Bytes
contents_of max_size (stack memory) = slice memory 0 max_size
contents_of max_size (heap frames) = ok (concat (map (λ (entry : ℕ × Bytes). entry.1) frames))

unfoldable pub get_buffer_contents : PdcClient → Run Bytes
get_buffer_contents client = contents_of client.max_buffer_size client.buffer

abbrev pub get_config : PdcClient → Option ConfigurationFrame
get_config client = client.config

abbrev pub get_frame_size : PdcClient → ℕ
get_frame_size client = client.frame_size

-- The buffer after `shutdown`.
abbrev pub cleared : BufferType → BufferType
cleared (stack memory) = stack (replicate (length memory) 0)
cleared (heap frames) = heap []
