-- ===== src/Front/Digits.antt =====
-- What sis1100_front_io (sis3100/sis1100-2.13/src/sis1100_front_io.c) makes of a command.
use mdaq_midas.Common.{
  ℕ, zero, suc, ◌+◌, ◌-◌, ◌/◌, ◌^◌, ◌<◌, ◌≡◌, refl, sym, ap, bit_and, not32, bit_at, bit_at-or,
  bit_at-and, bit_at-not32, bit_at-le, below_four, arith,
}
use Prim.Native.Nat.{min, max}
use native.Mathlib.Nat.{pow-suc, mul_comm, div-div-eq-div-mul}
use mdaq_midas.Front.Panel.{outputs}

digit_of :
    (opt data_ j : ℕ)
    → j < 32
    → bit_at j (outputs opt data_)
      ≡ max
          (min
            (min (bit_at j opt) (bit_at j 0xff))
            (1 - min (bit_at j (data_ / 2 ^ 20)) (bit_at j 0xf0)))
          (min (bit_at j (data_ / 2 ^ 4)) (bit_at j 0xf0))
digit_of opt data_ j h =
    let cleared = bit_and (data_ / 2 ^ 20) 0xf0 in
    let kept = bit_and opt 0xff in
    rw
      (
        bit_at-or j (bit_and kept (not32 cleared)) (bit_and (data_ / 2 ^ 4) 0xf0),
        bit_at-and j kept (not32 cleared),
        bit_at-and j opt 0xff,
        bit_at-not32 j cleared h,
        bit_at-and j (data_ / 2 ^ 20) 0xf0,
        bit_at-and j (data_ / 2 ^ 4) 0xf0,
      )
      refl

shifted : (k j l a : ℕ) → k + j ≡ l → bit_at j (a / 2 ^ k) ≡ bit_at l a
unfolding bit_at
shifted zero j l a e =
    let same : a / 2 ^ 0 ≡ a = omega arith in
    let index : j ≡ l = omega (arith, e) in rw same (ap (λ n. bit_at n a) index)
shifted (suc k) j zero a e = absurd (omega (arith, e))
shifted (suc k) j (suc l) a e =
    let half : a / 2 ^ suc k ≡ a / 2 / 2 ^ k =
      rw (pow-suc 2 k, mul_comm (2 ^ k) 2) (sym (div-div-eq-div-mul a 2 (2 ^ k))) in
    rw half (shifted k j l (a / 2) (omega (arith, e)))

-- An output is set if its digit for setting is, else it is cleared if its digit for clearing is, and
-- else it stays.
pub outputs-output :
    (opt data_ i : ℕ)
    → i < 4
    → bit_at (4 + i) (outputs opt data_)
      ≡ max (bit_at (8 + i) data_) (min (bit_at (4 + i) opt) (1 - bit_at (24 + i) data_))
unfolding bit_at
outputs-output opt data_ i h =
    below_four
      (λ i.
        bit_at (4 + i) (outputs opt data_)
        ≡ max (bit_at (8 + i) data_) (min (bit_at (4 + i) opt) (1 - bit_at (24 + i) data_)))
      (at 0 (omega arith) refl refl) (at 1 (omega arith) refl refl) (at 2 (omega arith) refl refl)
      (at 3 (omega arith) refl refl) i h
  where
    at :
        (i : ℕ)
        → i < 4
        → bit_at (4 + i) 0xff ≡ 1
        → bit_at (4 + i) 0xf0 ≡ 1
        → bit_at (4 + i) (outputs opt data_)
          ≡ max (bit_at (8 + i) data_) (min (bit_at (4 + i) opt) (1 - bit_at (24 + i) data_))
    at i h ones high = omega (
      arith,
      digit_of opt data_ (4 + i) (omega arith),
      ones,
      high,
      shifted 20 (4 + i) (24 + i) data_ (omega arith),
      shifted 4 (4 + i) (8 + i) data_ (omega arith),
      bit_at-le (4 + i) opt,
      bit_at-le (8 + i) data_,
      bit_at-le (24 + i) data_,
    )
