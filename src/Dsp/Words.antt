-- ===== src/Dsp/Words.antt =====
-- An instruction of the DSP as six bytes and as two words: sis1100_dsp_load and sis1100_dsp_read of
-- sis3100/sis1100-2.13/src/sis1100_dsp.c.
use mdaq_midas.Common.{
  ℕ, ◌+◌, ◌*◌, ◌/◌, ◌%◌, ◌^◌, ◌<◌, ◌≡◌, refl, bit_and, bit_or, arith, and_low_mask, or_low,
}
use mdaq_midas.Remote.{shl32}
use mdaq_midas.Dsp.Code.{Instruction, low_word, high_word, split_words}

-- Each part is one byte.
abbrev pub IsBytes : Instruction → Type 0
IsBytes v = (v.v0 < 256) × (v.v1 < 256) × (v.v2 < 256) × (v.v3 < 256) × (v.v4 < 256) × (v.v5 < 256)

or_shift : (k r q : ℕ) → r < 2 ^ k → q * 2 ^ k < 2 ^ 32 → bit_or r (shl32 q k) ≡ q * 2 ^ k + r
or_shift k r q h fits =
    let same : q * 2 ^ k % 2 ^ 32 ≡ q * 2 ^ k = omega arith in rw same (or_low k q r h)

low_sum : (a b : ℕ) → a < 256 → b < 256 → bit_or b (shl32 a 8) ≡ a * 256 + b
low_sum a b h k = or_shift 8 b a k (omega arith)

high_sum :
    (a b c e : ℕ)
    → a < 256
    → b < 256
    → c < 256
    → e < 256
    → bit_or (bit_or (bit_or e (shl32 c 8)) (shl32 b 16)) (shl32 a 24)
      ≡ a * 16777216 + b * 65536 + c * 256 + e
high_sum a b c e ha hb hc he =
    let s1 : bit_or e (shl32 c 8) ≡ c * 256 + e = low_sum c e hc he in
    let s2 : bit_or (c * 256 + e) (shl32 b 16) ≡ b * 65536 + (c * 256 + e) =
      or_shift 16 (c * 256 + e) b (omega arith) (omega arith) in
    let s3 : bit_or (b * 65536 + (c * 256 + e)) (shl32 a 24)
        ≡ a * 16777216 + (b * 65536 + (c * 256 + e)) =
      or_shift 24 (b * 65536 + (c * 256 + e)) a (omega arith) (omega arith) in
    rw (s1, s2, s3) (omega arith)

low_byte : (v : ℕ) → bit_and v 0xff ≡ v % 256
low_byte v = and_low_mask 8 v

-- A byte of a number.
byte_of : (x q r n : ℕ) → n < 256 → x / q ≡ r * 256 + n → bit_and (x / q) 0xff ≡ n
byte_of x q r n h e = rw (e, low_byte (r * 256 + n)) (omega arith)

-- The six bytes that sis1100_dsp_load takes from user memory are those that sis1100_dsp_read makes of
-- the two words into which sis1100_dsp_load has packed them.
pub split_words-words : (v : Instruction) → IsBytes v → split_words (low_word v) (high_word v) ≡ v
split_words-words v (h0, h1, h2, h3, h4, h5) =
    let low = low_sum v.v4 v.v5 h4 h5 in
    let high = high_sum v.v0 v.v1 v.v2 v.v3 h0 h1 h2 h3 in
    let s = v.v0 * 16777216 + v.v1 * 65536 + v.v2 * 256 + v.v3 in
    let e0 : bit_and (s / 2 ^ 24) 0xff ≡ v.v0 = byte_of s (2 ^ 24) 0 v.v0 h0 (omega arith) in
    let e1 : bit_and (s / 2 ^ 16) 0xff ≡ v.v1 = byte_of s (2 ^ 16) v.v0 v.v1 h1 (omega arith) in
    let e2 : bit_and (s / 2 ^ 8) 0xff ≡ v.v2 =
      byte_of s (2 ^ 8) (v.v0 * 256 + v.v1) v.v2 h2 (omega arith) in
    let e3 : bit_and s 0xff ≡ v.v3 = rw (low_byte s) (omega arith) in
    let e4 : bit_and ((v.v4 * 256 + v.v5) / 2 ^ 8) 0xff ≡ v.v4 =
      byte_of (v.v4 * 256 + v.v5) (2 ^ 8) 0 v.v4 h4 (omega arith) in
    let e5 : bit_and (v.v4 * 256 + v.v5) 0xff ≡ v.v5 =
      rw (low_byte (v.v4 * 256 + v.v5)) (omega arith) in
    rw (low, high, e0, e1, e2, e3, e4, e5) refl

-- Two words are those that sis1100_dsp_load packs again from the bytes that sis1100_dsp_read has made of
-- them, if the first one has 16 bits and the second one 32.
pub words-split_words :
    (w0 w12 : ℕ)
    → w0 < 2 ^ 16
    → w12 < 2 ^ 32
    → (low_word (split_words w0 w12) ≡ w0) × (high_word (split_words w0 w12) ≡ w12)
words-split_words w0 w12 h k = (
  rw
      (
        low_byte (w0 / 2 ^ 8),
        low_byte w0,
        low_sum (w0 / 2 ^ 8 % 256) (w0 % 256) (omega arith) (omega arith),
      )
      (omega arith),
  rw
      (
        low_byte (w12 / 2 ^ 24),
        low_byte (w12 / 2 ^ 16),
        low_byte (w12 / 2 ^ 8),
        low_byte w12,
        high_sum (w12 / 2 ^ 24 % 256) (w12 / 2 ^ 16 % 256) (w12 / 2 ^ 8 % 256) (w12 % 256)
            (omega arith) (omega arith) (omega arith) (omega arith),
      )
      (omega arith),
)
