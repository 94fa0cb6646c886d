-- ===== src/Frames/Crc.antt =====
-- src/frames.rs, `calculate_crc`: CRC-CCITT, bit by bit. A `u16` is a number below 2 ^ 16, and the
-- shift to the left is cut to sixteen bits.
pub mod Detect
pub mod Residue
use pmu_data_analytics.Base.{
  ℕ, zero, suc, ◌*◌, ◌%◌, ◌^◌, Bool, not, List, [], ◌∷◌, bit_and, bit_xor, ◌==◌, if◌then◌else◌,
}

-- `(crc & 0x8000) != 0`
pub top_bit : ℕ → Bool
top_bit crc = not (bit_and crc 0x8000 == 0)

-- The body of the inner loop.
pub crc_round : ℕ → ℕ
crc_round crc = if top_bit crc then bit_xor (crc * 2 % 2 ^ 16) 0x1021 else crc * 2 % 2 ^ 16

-- `for _ in 0..n`
pub crc_rounds : ℕ → ℕ → ℕ
crc_rounds zero crc = crc
crc_rounds (suc n) crc = crc_rounds n (crc_round crc)

-- The body of the outer loop: `crc ^= (byte as u16) << 8`, then eight rounds.
pub crc_byte : ℕ → ℕ → ℕ
crc_byte crc byte = crc_rounds 8 (bit_xor crc (byte * 2 ^ 8))

pub crc_loop : ℕ → List ℕ → ℕ
crc_loop crc [] = crc
crc_loop crc (byte ∷ rest) = crc_loop (crc_byte crc byte) rest

unfoldable pub calculate_crc : List ℕ → ℕ
unfolding top_bit crc_round crc_rounds crc_byte crc_loop
calculate_crc buffer = crc_loop 0xffff buffer
