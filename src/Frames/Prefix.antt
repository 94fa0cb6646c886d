-- ===== src/Frames/Prefix.antt =====
-- src/frames.rs, `PrefixFrame2011`: the fourteen bytes that begin every frame.
pub mod RoundTrip
use pmu_data_analytics.Base.{ℕ, ◌+◌, ◌^◌, ◌<◌, ◌==◌, ◌++◌, length, Outcome, ok, ensure, ◌>>=◌, ◌>>◌}
use pmu_data_analytics.Base.Bytes.{Bytes, u16_bytes, u32_bytes, u16_at, u32_at}

pub record PrefixFrame : Type 0 where
  pub sync : ℕ
  pub framesize : ℕ
  pub idcode : ℕ
  pub soc : ℕ
  pub fracsec : ℕ

-- The fields are `u16` and `u32`.
pub record IsPrefix (p : PrefixFrame) : Type 0 where
  pub sync_u16 : p.sync < 2 ^ 16
  pub framesize_u16 : p.framesize < 2 ^ 16
  pub idcode_u16 : p.idcode < 2 ^ 16
  pub soc_u32 : p.soc < 2 ^ 32
  pub fracsec_u32 : p.fracsec < 2 ^ 32

-- `Err("Invalid byte array length")`
pub data LengthError : Type 0 where
  invalid_length : LengthError

unfoldable pub to_hex : PrefixFrame → Bytes
to_hex p =
    u16_bytes p.sync
    ++ (u16_bytes p.framesize ++ (u16_bytes p.idcode ++ (u32_bytes p.soc ++ u32_bytes p.fracsec)))

unfoldable pub from_hex : Bytes → Outcome LengthError PrefixFrame
unfolding u16_at u32_at
from_hex bytes = do
  ensure (length bytes == 14) invalid_length
  sync ← u16_at bytes 0
  framesize ← u16_at bytes 2
  idcode ← u16_at bytes 4
  soc ← u32_at bytes 6
  fracsec ← u32_at bytes 10
  ok (record { sync = sync; framesize = framesize; idcode = idcode; soc = soc; fracsec = fracsec })
