-- ===== src/Frames/Crc/Residue.antt =====
-- The checksum, sent after the message, brings the register to zero.
use pmu_data_analytics.Base.{
  ℕ, zero, suc, ◌+◌, ◌*◌, ◌/◌, ◌%◌, ◌^◌, ◌≤◌, ◌<◌, ◌≡◌, ap, ◌∙◌, sym, List, [], ◌∷◌, ◌++◌, bit_xor,
  arith, All,
}
use native.Mathlib.Nat.{pow-suc}
use pmu_data_analytics.Base.Bits.{bit_xor_self, bit_xor_fields}
use pmu_data_analytics.Frames.Crc.{
  top_bit, crc_round, crc_rounds, crc_byte, crc_loop, calculate_crc,
}
use pmu_data_analytics.Frames.Crc.Detect.{
  IsWord, IsByte, top_bit_lem, crc_loop-IsWord, crc_loop-append,
}

-- With the top bit clear a round is a plain doubling.
crc_round_small : (c : ℕ) → c < 0x8000 → crc_round c ≡ c * 2
unfolding crc_round
crc_round_small c h = ground (arith, top_bit_lem c (omega arith))

le-mul-pow : (a n : ℕ) → a ≤ a * 2 ^ n
le-mul-pow a zero = omega arith
le-mul-pow a (suc n) = omega (arith, le-mul-pow a n, ap (λ (t : ℕ). a * t) (pow-suc 2 n))

crc_rounds_small : (n c : ℕ) → c * 2 ^ n < 2 ^ 16 → crc_rounds n c ≡ c * 2 ^ n
unfolding crc_rounds
crc_rounds_small zero c h = omega arith
crc_rounds_small (suc n) c h =
    let shift : c * 2 ^ suc n ≡ c * 2 * 2 ^ n =
      omega (arith, ap (λ (t : ℕ). c * t) (pow-suc 2 n)) in
    let grows : c * 2 ≤ c * 2 * 2 ^ n = le-mul-pow (c * 2) n in
    rw (crc_round_small c (omega arith)) (crc_rounds_small n (c * 2) (omega arith) ∙ sym shift)

-- The high byte of the register, fed in, leaves the low byte in the high place.
crc_byte_high : (h l : ℕ) → l < 256 → crc_byte (h * 2 ^ 8 + l) h ≡ l * 2 ^ 8
unfolding crc_byte
crc_byte_high h l p =
    let low : bit_xor (h * 2 ^ 8 + l) (h * 2 ^ 8) ≡ l =
      omega (arith, bit_xor_fields 8 h h l p, bit_xor_self h) in
    ap (crc_rounds 8) low ∙ crc_rounds_small 8 l (omega arith)

crc_byte_low : (l : ℕ) → crc_byte (l * 2 ^ 8) l ≡ 0
unfolding crc_byte crc_rounds crc_round top_bit
crc_byte_low l = ap (crc_rounds 8) (bit_xor_self (l * 2 ^ 8))

residue : (c : ℕ) → IsWord c → crc_loop c (c / 256 ∷ c % 256 ∷ []) ≡ 0
unfolding crc_loop
residue c h =
    let parts : c / 256 * 2 ^ 8 + c % 256 ≡ c = omega arith in
    let high : crc_byte c (c / 256) ≡ c % 256 * 2 ^ 8 =
      ap (λ t. crc_byte t (c / 256)) (sym parts)
      ∙ crc_byte_high (c / 256) (c % 256) (omega arith) in
    ap (λ t. crc_byte t (c % 256)) high ∙ crc_byte_low (c % 256)

-- A message of bytes followed by its own checksum, high byte first, has the checksum zero.
pub calculate_crc_residue :
    (bs : List ℕ)
    → All IsByte bs
    → calculate_crc (bs ++ (calculate_crc bs / 256 ∷ calculate_crc bs % 256 ∷ [])) ≡ 0
unfolding calculate_crc
calculate_crc_residue bs h =
    rw (crc_loop-append bs _ 0xffff)
      (residue (crc_loop 0xffff bs) (crc_loop-IsWord bs 0xffff (omega arith) h))
