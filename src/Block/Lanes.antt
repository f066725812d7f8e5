-- ===== src/Block/Lanes.antt =====
-- The two ways in which the driver fills the lanes of a word: sis1100_write_loop
-- (sis3100/sis1100-2.13/src/sis1100_write_loop.c) and sis1100_tmp_write (sis1100_tmp_write.c).
use mdaq_midas.Common.{
  ℕ, ◌+◌, ◌*◌, ◌^◌, ◌<◌, ◌≡◌, refl, ◌∙◌, ◌⊎◌, inl, inr, bit_or, bit_and, arith, or_low,
  and_low_mask,
}
use mdaq_midas.Remote.{spread, spread_byte, spread_half, shl32}
use mdaq_midas.Block.Send.{widen}

low_byte :
    (v : ℕ)
    → v < 2 ^ 8
    → bit_or (bit_or v (shl32 v 8)) (shl32 (bit_or v (shl32 v 8)) 16) ≡ spread_byte v
low_byte v h =
    let pair : bit_or v (shl32 v 8) ≡ v * 2 ^ 8 + v =
      rw (shifted 8 v (omega arith)) (or_low 8 v v h) in
    rw (pair, shifted 16 (v * 2 ^ 8 + v) (omega arith))
      (or_low 16 (v * 2 ^ 8 + v) (v * 2 ^ 8 + v) (omega arith) ∙ omega arith)
  where
    shifted : (k v : ℕ) → v * 2 ^ k < 2 ^ 32 → shl32 v k ≡ v * 2 ^ k
    shifted k v h = omega arith

low_half : (v : ℕ) → v < 2 ^ 16 → bit_or v (shl32 v 16) ≡ spread_half v
low_half v h = rw (shifted 16 v (omega arith)) (or_low 16 v v h ∙ omega arith)
  where
    shifted : (k v : ℕ) → v * 2 ^ k < 2 ^ 32 → shl32 v k ≡ v * 2 ^ k
    shifted k v h = omega arith

-- For words of 1, 2 and 4 bytes, the datum that sis1100_write_loop puts on the link for a word, made
-- by shifts and `|`, is the one that sis1100_tmp_write makes by shifts and sums.
pub widen-spread :
    (size val : ℕ) → (size ≡ 1) ⊎ (size ≡ 2) ⊎ (size ≡ 4) → widen size val ≡ spread size val
unfolding widen spread
widen-spread size val (inl e) =
    rw e (low_byte (bit_and val 0xff) (omega (arith, and_low_mask 8 val)))
widen-spread size val (inr (inl e)) =
    rw e (low_half (bit_and val 0xffff) (omega (arith, and_low_mask 16 val)))
widen-spread size val (inr (inr e)) = rw e refl
