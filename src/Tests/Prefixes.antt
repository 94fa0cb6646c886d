-- ===== src/Tests/Prefixes.antt =====
-- The prefix of a frame at a concrete frame.
use pmu_data_analytics.Base.{◌≡◌, [], ◌∷◌, ok, arith}
use pmu_data_analytics.Base.Bytes.{Bytes}
use pmu_data_analytics.Frames.Prefix.{PrefixFrame, IsPrefix, from_hex, to_hex}
use pmu_data_analytics.Frames.Prefix.RoundTrip.{from_hex-to_hex, to_hex-from_hex}

abbrev prefix_bytes : Bytes
prefix_bytes =
    0xaa ∷ 0x01 ∷ 0 ∷ 52 ∷ 0x1d ∷ 0xec ∷ 0x44 ∷ 0x85 ∷ 0x36 ∷ 0 ∷ 0 ∷ 0 ∷ 0xa2 ∷ 0x40 ∷ []

abbrev data_prefix : PrefixFrame
data_prefix = record {
  sync = 0xaa01;
  framesize = 52;
  idcode = 7660;
  soc = 1149580800;
  fracsec = 41536;
}

from_hex-to_hex_example : from_hex (to_hex data_prefix) ≡ ok data_prefix
from_hex-to_hex_example = from_hex-to_hex data_prefix (omega arith)

to_hex-from_hex_example :
    (p : PrefixFrame) × (from_hex prefix_bytes ≡ ok p) × IsPrefix p × (to_hex p ≡ prefix_bytes)
to_hex-from_hex_example =
    to_hex-from_hex 0xaa 0x01 0 52 0x1d 0xec 0x44 0x85 0x36 0 0 0 0xa2 0x40 (omega arith)
