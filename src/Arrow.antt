-- ===== src/Arrow.antt =====
-- src/arrow_utils.rs: the columns of a table of frames. Of the arrow crate a field is its name and its
-- type, and an array is the list of its values; no field may hold a null.
pub mod Loops
pub mod Shape
pub mod Layout
pub mod Values
pub mod Streams
use Prim.Native.String.{String}
use Prim.Native.String as Text
use pmu_data_analytics.Base.{
  ℕ, ◌+◌, Run, ok, panic, ◌>>=◌, ltb, leb, ◌==◌, if◌then◌else◌, List, [], ◌∷◌, ◌++◌, map, length, ℤ,
}
use pmu_data_analytics.Base.Bytes.{Bytes, slice}
use pmu_data_analytics.Base.Chunks.{chunks, u16_of_chunk}
use pmu_data_analytics.Frames.Data.{F32}
use pmu_data_analytics.Frames.Values.{f32_of_chunk, i16_of_chunk}
use pmu_data_analytics.Frames.Channels.{
  ChannelDataType, phasor_float, phasor_fixed, analog_float, analog_fixed, digital, freq_float,
  freq_fixed, dfreq_float, dfreq_fixed, ChannelInfo,
}

pub data DataType : Type 0 where
  timestamp_type float32_type int16_type uint16_type : DataType

pub record Field : Type 0 where
  pub name : String
  pub data_type : DataType

-- `ArrayRef`
pub data Array : Type 0 where
  timestamp_array : List ℕ → Array
  float32_array : List F32 → Array
  int16_array : List ℤ → Array
  uint16_array : List ℕ → Array

-- `format!("{}_magnitude", name)` and the like.
abbrev pub suffixed : String → String → String
suffixed name suffix = Text.◌++◌ name suffix

-- The fields of one channel: two for a phasor, one for any other.
abbrev pub fields_of : String → ChannelDataType → List Field
fields_of name phasor_float =
    record { name = suffixed name "_magnitude"; data_type = float32_type }
    ∷ record { name = suffixed name "_angle"; data_type = float32_type }
    ∷ []
fields_of name phasor_fixed =
    record { name = suffixed name "_X"; data_type = int16_type }
    ∷ record { name = suffixed name "_Y"; data_type = int16_type }
    ∷ []
fields_of name analog_float = record { name = name; data_type = float32_type } ∷ []
fields_of name freq_float = record { name = name; data_type = float32_type } ∷ []
fields_of name dfreq_float = record { name = name; data_type = float32_type } ∷ []
fields_of name analog_fixed = record { name = name; data_type = int16_type } ∷ []
fields_of name freq_fixed = record { name = name; data_type = int16_type } ∷ []
fields_of name dfreq_fixed = record { name = name; data_type = int16_type } ∷ []
fields_of name digital = record { name = name; data_type = uint16_type } ∷ []

-- `for (name, info) in channel_map`
unfoldable pub channel_fields : List (String × ChannelInfo) → List Field
channel_fields [] = []
channel_fields ((name, info) ∷ channels) = fields_of name info.data_type ++ channel_fields channels

unfoldable pub build_arrow_schema : List (String × ChannelInfo) → List Field
unfolding channel_fields
build_arrow_schema channel_map =
    record { name = "timestamp"; data_type = timestamp_type } ∷ channel_fields channel_map

-- `buffer.chunks(frame_size)`, which panics for chunks of size 0.
unfoldable pub frames_of : ℕ → Bytes → Run (List Bytes)
frames_of frame_size buffer = if frame_size == 0 then panic else ok (chunks frame_size buffer)

module _ {A : Type 0} (read : Bytes → Run A) (frame_size : ℕ) (info : ChannelInfo) where
  -- The body of the loops over the frames: a short frame ends the loop, and a channel that does not
  -- lie within the frame is passed over.
  unfoldable pub extract_frames : List Bytes → Run (List A)
  extract_frames [] = ok []
  extract_frames (frame ∷ frames) =
      let rest = extract_frames frames in
      if ltb (length frame) frame_size
      then ok []
      else (if leb (info.offset + info.size) (length frame)
          then (do
            bytes ← slice frame info.offset (info.offset + info.size)
            value ← read bytes
            values ← rest
            ok (value ∷ values))
          else rest)

  unfoldable pub extract_values : Bytes → Run (List A)
  unfolding frames_of extract_frames
  extract_values buffer = do frames ← frames_of frame_size buffer; extract_frames frames

abbrev pub extract_float32_values : Bytes → ℕ → ChannelInfo → Run (List F32)
extract_float32_values buffer frame_size info = extract_values f32_of_chunk frame_size info buffer

abbrev pub extract_int16_values : Bytes → ℕ → ChannelInfo → Run (List ℤ)
extract_int16_values buffer frame_size info = extract_values i16_of_chunk frame_size info buffer

abbrev pub extract_uint16_values : Bytes → ℕ → ChannelInfo → Run (List ℕ)
extract_uint16_values buffer frame_size info = extract_values u16_of_chunk frame_size info buffer

-- `data[..n]` and `data[n..]`, each converted.
abbrev pub read_pair : {A : Type 0} → (Bytes → Run A) → ℕ → Bytes → Run (A × A)
read_pair read n bytes = do
  low ← slice bytes 0 n
  first ← read low
  high ← slice bytes n (length bytes)
  second ← read high
  ok (first, second)

-- `values.iter().map(|(m, _)| *m)`, and the other half.
abbrev pub firsts : {A : Type 0} → List (A × A) → List A
firsts = map (λ pair. pair.0)

abbrev pub seconds : {A : Type 0} → List (A × A) → List A
seconds = map (λ pair. pair.1)

abbrev pub float32_column : Bytes → ℕ → ChannelInfo → Run (List Array)
float32_column buffer frame_size info = do
  values ← extract_float32_values buffer frame_size info
  ok (float32_array values ∷ [])

abbrev pub int16_column : Bytes → ℕ → ChannelInfo → Run (List Array)
int16_column buffer frame_size info = do
  values ← extract_int16_values buffer frame_size info
  ok (int16_array values ∷ [])

-- `match channel_info.data_type`
abbrev pub extract_by_type : ChannelDataType → Bytes → ℕ → ChannelInfo → Run (List Array)
extract_by_type phasor_float buffer frame_size info = do
  values ← extract_values (read_pair f32_of_chunk 4) frame_size info buffer
  ok (float32_array (firsts values) ∷ float32_array (seconds values) ∷ [])
extract_by_type phasor_fixed buffer frame_size info = do
  values ← extract_values (read_pair i16_of_chunk 2) frame_size info buffer
  ok (int16_array (firsts values) ∷ int16_array (seconds values) ∷ [])
extract_by_type analog_float buffer frame_size info = float32_column buffer frame_size info
extract_by_type freq_float buffer frame_size info = float32_column buffer frame_size info
extract_by_type dfreq_float buffer frame_size info = float32_column buffer frame_size info
extract_by_type analog_fixed buffer frame_size info = int16_column buffer frame_size info
extract_by_type freq_fixed buffer frame_size info = int16_column buffer frame_size info
extract_by_type dfreq_fixed buffer frame_size info = int16_column buffer frame_size info
extract_by_type digital buffer frame_size info = do
  values ← extract_uint16_values buffer frame_size info
  ok (uint16_array values ∷ [])

unfoldable pub extract_channel_values : Bytes → ℕ → ChannelInfo → Run (List Array)
unfolding extract_values
extract_channel_values buffer frame_size info =
    extract_by_type info.data_type buffer frame_size info
