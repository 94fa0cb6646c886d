-- ===== src/Frames/Data.antt =====
-- src/frames.rs, `PMUDataFrame` and `DataFrame2011`: what one data frame holds. An `f32` is its bit
-- pattern, since the program reads and copies these values and computes nothing with them.
use pmu_data_analytics.Base.{ℕ, List, ℤ}
use pmu_data_analytics.Base.Bytes.{Bytes}
use pmu_data_analytics.Frames.Prefix.{PrefixFrame}

pub record F32 : Type 0 where
  pub bits : ℕ

pub record PmuDataFrame (T : Type 0) : Type 0 where
  pub stat : ℕ
  pub phasors : Bytes
  pub freq : T
  pub dfreq : T
  pub analog : Bytes
  pub digital : Bytes

pub data PmuFrameType : Type 0 where
  floating : PmuDataFrame F32 → PmuFrameType
  fixed : PmuDataFrame ℤ → PmuFrameType

-- The field `data` of the source is `pmu_data` here.
pub record DataFrame : Type 0 where
  pub prefix : PrefixFrame
  pub pmu_data : List PmuFrameType
  pub chk : ℕ

pub record HeaderFrame : Type 0 where
  pub prefix : PrefixFrame
  pub data_source : Bytes
  pub version : Bytes
  pub chk : ℕ
