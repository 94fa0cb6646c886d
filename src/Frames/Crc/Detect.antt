-- ===== src/Frames/Crc/Detect.antt =====
-- One round is injective on words, so a change of one byte always changes the checksum.
use pmu_data_analytics.Base.{
  ℕ, zero, suc, ◌*◌, ◌%◌, ◌^◌, ◌<◌, ◌≡◌, ◌≢◌, refl, ap, ◌∙◌, sym, List, [], ◌∷◌, ◌++◌, bit_xor,
  arith, ltb, All,
}
use pmu_data_analytics.Base.Bits.{bit_xor_cancel, bit_xor_parity, bit_xor-lt, bit_xor_comm}
use pmu_data_analytics.Base.Masks.{bit_and_pow}
use pmu_data_analytics.Frames.Crc.{
  top_bit, crc_round, crc_rounds, crc_byte, crc_loop, calculate_crc,
}

abbrev pub IsWord : ℕ → Type 0
IsWord c = c < 2 ^ 16

abbrev pub IsByte : ℕ → Type 0
IsByte b = b < 256

-- The test of the top bit is an order on words.
pub top_bit_lem : (c : ℕ) → IsWord c → top_bit c ≡ ltb 0x7fff c
unfolding top_bit
top_bit_lem c h = ground (arith, bit_and_pow 15 c)

pub crc_round-IsWord : (c : ℕ) → IsWord (crc_round c)
unfolding crc_round
crc_round-IsWord c = ground (arith, bit_xor-lt 16 (c * 2 % 2 ^ 16) 0x1021)

pub crc_rounds-IsWord : (n c : ℕ) → IsWord c → IsWord (crc_rounds n c)
unfolding crc_rounds
crc_rounds-IsWord zero c h = h
crc_rounds-IsWord (suc n) c h = crc_rounds-IsWord n (crc_round c) (crc_round-IsWord c)

bit_xor_inj : (a b k : ℕ) → bit_xor a k ≡ bit_xor b k → a ≡ b
bit_xor_inj a b k e = sym (bit_xor_cancel a k) ∙ ap (λ t. bit_xor t k) e ∙ bit_xor_cancel b k

-- The low bit of the result tells which branch was taken, and each branch can be undone.
crc_round_inj : (a b : ℕ) → IsWord a → IsWord b → crc_round a ≡ crc_round b → a ≡ b
unfolding crc_round
crc_round_inj a b ha hb e = ground (
  arith,
  top_bit_lem a ha,
  top_bit_lem b hb,
  bit_xor_parity (a * 2 % 2 ^ 16) 0x1021,
  bit_xor_parity (b * 2 % 2 ^ 16) 0x1021,
  bit_xor_inj (a * 2 % 2 ^ 16) (b * 2 % 2 ^ 16) 0x1021,
)

crc_rounds_inj : (n a b : ℕ) → IsWord a → IsWord b → crc_rounds n a ≡ crc_rounds n b → a ≡ b
unfolding crc_rounds
crc_rounds_inj zero a b ha hb e = e
crc_rounds_inj (suc n) a b ha hb e =
    crc_round_inj a b ha hb
      (crc_rounds_inj n (crc_round a) (crc_round b) (crc_round-IsWord a) (crc_round-IsWord b) e)

byte_shift_lt : (c b : ℕ) → IsWord c → IsByte b → IsWord (bit_xor c (b * 2 ^ 8))
byte_shift_lt c b hc hb = bit_xor-lt 16 c (b * 2 ^ 8) hc (omega arith)

pub crc_byte-IsWord : (c b : ℕ) → IsWord c → IsByte b → IsWord (crc_byte c b)
unfolding crc_byte
crc_byte-IsWord c b hc hb = crc_rounds-IsWord 8 (bit_xor c (b * 2 ^ 8)) (byte_shift_lt c b hc hb)

-- For one byte, the step is injective in the register.
crc_byte_inj_crc :
    (c d b : ℕ) → IsWord c → IsWord d → IsByte b → crc_byte c b ≡ crc_byte d b → c ≡ d
unfolding crc_byte
crc_byte_inj_crc c d b hc hd hb e =
    bit_xor_inj c d (b * 2 ^ 8)
      (crc_rounds_inj 8 _ _ (byte_shift_lt c b hc hb) (byte_shift_lt d b hd hb) e)

-- For one register, the step is injective in the byte.
crc_byte_inj_byte :
    (c a b : ℕ) → IsWord c → IsByte a → IsByte b → crc_byte c a ≡ crc_byte c b → a ≡ b
unfolding crc_byte
crc_byte_inj_byte c a b hc ha hb e =
    let same : bit_xor c (a * 2 ^ 8) ≡ bit_xor c (b * 2 ^ 8) =
      crc_rounds_inj 8 _ _ (byte_shift_lt c a hc ha) (byte_shift_lt c b hc hb) e in
    let shifted : a * 2 ^ 8 ≡ b * 2 ^ 8 =
      bit_xor_inj (a * 2 ^ 8) (b * 2 ^ 8) c
        (bit_xor_comm (a * 2 ^ 8) c ∙ same ∙ bit_xor_comm c (b * 2 ^ 8)) in
    omega arith

pub crc_loop-IsWord : (bs : List ℕ) (c : ℕ) → IsWord c → All IsByte bs → IsWord (crc_loop c bs)
unfolding crc_loop
crc_loop-IsWord [] c hc hb = hc
crc_loop-IsWord (b ∷ bs) c hc hb =
    crc_loop-IsWord bs (crc_byte c b) (crc_byte-IsWord c b hc hb.0) hb.1

-- After the same bytes, different registers stay different.
crc_loop_inj :
    (bs : List ℕ) (c d : ℕ)
    → IsWord c
    → IsWord d
    → All IsByte bs
    → crc_loop c bs ≡ crc_loop d bs
    → c ≡ d
unfolding crc_loop
crc_loop_inj [] c d hc hd hb e = e
crc_loop_inj (b ∷ bs) c d hc hd hb e = crc_byte_inj_crc c d b hc hd hb.0 (
    crc_loop_inj bs (crc_byte c b) (crc_byte d b) (crc_byte-IsWord c b hc hb.0)
      (crc_byte-IsWord d b hd hb.0) hb.1 e)

pub crc_loop-append : (xs ys : List ℕ) (c : ℕ) → crc_loop c (xs ++ ys) ≡ crc_loop (crc_loop c xs) ys
unfolding crc_loop
crc_loop-append [] ys c = refl
crc_loop-append (x ∷ xs) ys c = crc_loop-append xs ys (crc_byte c x)

-- The checksum of bytes is a `u16`.
pub calculate_crc-IsWord : (bs : List ℕ) → All IsByte bs → IsWord (calculate_crc bs)
unfolding calculate_crc
calculate_crc-IsWord bs h = crc_loop-IsWord bs 0xffff (omega arith) h

calculate_crc_same_byte :
    (xs ys : List ℕ) (a b : ℕ)
    → All IsByte xs
    → All IsByte ys
    → IsByte a
    → IsByte b
    → calculate_crc (xs ++ (a ∷ ys)) ≡ calculate_crc (xs ++ (b ∷ ys))
    → a ≡ b
unfolding calculate_crc
calculate_crc_same_byte xs ys a b hx hy ha hb e =
    let c : ℕ = crc_loop 0xffff xs in
    let hc : IsWord c = crc_loop-IsWord xs 0xffff (omega arith) hx in
    crc_byte_inj_byte c a b hc ha hb (
      crc_loop_inj ys (crc_byte c a) (crc_byte c b) (crc_byte-IsWord c a hc ha)
        (crc_byte-IsWord c b hc hb) hy
        (sym (crc_loop-append xs (a ∷ ys) 0xffff) ∙ e ∙ crc_loop-append xs (b ∷ ys) 0xffff))

-- Two messages of bytes that differ in one byte, `a` in one and `b` in the other at the same place,
-- have different checksums.
pub calculate_crc_detects_byte :
    (xs ys : List ℕ) (a b : ℕ)
    → All IsByte xs
    → All IsByte ys
    → IsByte a
    → IsByte b
    → a ≢ b
    → calculate_crc (xs ++ (a ∷ ys)) ≢ calculate_crc (xs ++ (b ∷ ys))
calculate_crc_detects_byte xs ys a b hx hy ha hb differ =
    λ e. differ (calculate_crc_same_byte xs ys a b hx hy ha hb e)
