-- ===== src/Arrow/Layout.antt =====
-- The values of a channel in one frame: their bytes by the standard, and the columns that they make.
use pmu_data_analytics.Base.{ℕ, ◌≡◌, List, [], ◌∷◌, ◌++◌, length, ℤ, bits_of_i16}
use pmu_data_analytics.Base.Bytes.{Bytes, u16_bytes, u32_bytes}
use pmu_data_analytics.Base.Bytes.Cursor.{At}
use pmu_data_analytics.Frames.Data.{F32}
use pmu_data_analytics.Parser.Data.Layout.{IsI16}
use pmu_data_analytics.Frames.Values.RoundTrip.{IsF32, IsU16}
use pmu_data_analytics.Frames.Channels.{
  ChannelDataType, phasor_float, phasor_fixed, analog_float, analog_fixed, digital, freq_float,
  freq_fixed, dfreq_float, dfreq_fixed, ChannelInfo,
}
use pmu_data_analytics.Arrow.{Array, float32_array, int16_array, uint16_array, firsts, seconds}

-- What a channel of this type holds in one frame.
abbrev pub Value : ChannelDataType → Type 0
Value phasor_float = F32 × F32
Value phasor_fixed = ℤ × ℤ
Value analog_float = F32
Value freq_float = F32
Value dfreq_float = F32
Value analog_fixed = ℤ
Value freq_fixed = ℤ
Value dfreq_fixed = ℤ
Value digital = ℕ

abbrev pub put_f32 : F32 → Bytes
put_f32 x = u32_bytes x.bits

abbrev pub put_i16 : ℤ → Bytes
put_i16 z = u16_bytes (bits_of_i16 z)

-- The bytes of a value by the standard.
abbrev pub put_value : (t : ChannelDataType) → Value t → Bytes
put_value phasor_float (x, y) = put_f32 x ++ put_f32 y
put_value phasor_fixed (x, y) = put_i16 x ++ put_i16 y
put_value analog_float x = put_f32 x
put_value freq_float x = put_f32 x
put_value dfreq_float x = put_f32 x
put_value analog_fixed x = put_i16 x
put_value freq_fixed x = put_i16 x
put_value dfreq_fixed x = put_i16 x
put_value digital w = u16_bytes w

-- The numbers fit their widths.
abbrev pub IsValue : (t : ChannelDataType) → Value t → Type 0
IsValue phasor_float (x, y) = IsF32 x × IsF32 y
IsValue phasor_fixed (x, y) = IsI16 x × IsI16 y
IsValue analog_float x = IsF32 x
IsValue freq_float x = IsF32 x
IsValue dfreq_float x = IsF32 x
IsValue analog_fixed x = IsI16 x
IsValue freq_fixed x = IsI16 x
IsValue dfreq_fixed x = IsI16 x
IsValue digital w = IsU16 w

-- The columns of these values: for phasors that of the first components and that of the second.
abbrev pub columns : (t : ChannelDataType) → List (Value t) → List Array
columns phasor_float values = float32_array (firsts values) ∷ float32_array (seconds values) ∷ []
columns phasor_fixed values = int16_array (firsts values) ∷ int16_array (seconds values) ∷ []
columns analog_float values = float32_array values ∷ []
columns freq_float values = float32_array values ∷ []
columns dfreq_float values = float32_array values ∷ []
columns analog_fixed values = int16_array values ∷ []
columns freq_fixed values = int16_array values ∷ []
columns dfreq_fixed values = int16_array values ∷ []
columns digital values = uint16_array values ∷ []

-- A frame of the frame size that holds these bytes at the channel's place.
abbrev pub HoldsAt : ℕ → ChannelInfo → Bytes → Bytes → Type 0
HoldsAt n info frame block =
    (length frame ≡ n)
    × (length block ≡ info.size)
    × (rest : Bytes) × At frame info.offset (block ++ rest)
