-- ===== src/Tests/Checksum.antt =====
-- The checksum at concrete messages.
use pmu_data_analytics.Base.{◌/◌, ◌%◌, ◌≡◌, ◌≢◌, ◌++◌, [], ◌∷◌, arith}
use pmu_data_analytics.Base.Bytes.{Bytes}
use pmu_data_analytics.Frames.Crc.{calculate_crc}
use pmu_data_analytics.Frames.Crc.Residue.{calculate_crc_residue}
use pmu_data_analytics.Frames.Crc.Detect.{calculate_crc_detects_byte}

-- "Arnold"
abbrev arnold : Bytes
arnold = 65 ∷ 114 ∷ 110 ∷ 111 ∷ 108 ∷ 100 ∷ []

calculate_crc_detects_byte_example :
    calculate_crc (65 ∷ 114 ∷ 110 ∷ []) ≢ calculate_crc (65 ∷ 115 ∷ 110 ∷ [])
calculate_crc_detects_byte_example =
    calculate_crc_detects_byte (65 ∷ []) (110 ∷ []) 114 115 (omega arith) (omega arith)
      (omega arith) (omega arith) (omega arith)

calculate_crc_residue_example :
    calculate_crc (arnold ++ (calculate_crc arnold / 256 ∷ calculate_crc arnold % 256 ∷ [])) ≡ 0
calculate_crc_residue_example = calculate_crc_residue arnold (omega arith)
