-- ===== src/Files/Blocks.antt =====
-- Which blocks of registers the requests of sis3100/sis1100-2.13/src/sis1100_ioctl.c let through.
use mdaq_midas.Common.{
  ℕ, ◌+◌, ◌-◌, ◌*◌, ◌/◌, ◌%◌, ◌^◌, ◌<◌, ◌≡◌, ◌⊎◌, inl, inr, refl, bit_and, not32, ltb, ◌==◌, ◌&&◌,
  ◌||◌, Bool, true, not, Bool-cases, if◌then◌else◌, arith, and_low_mask, and_high,
}
use mdaq_midas.Vme.{einval}
use mdaq_midas.Files.Requests.{CtrlRw, ioctl_ctrl_block_check}

-- The registers of a window: 0x1000 bytes on this side of the link, 0x800 on the other.
abbrev pub IsWindow : ℕ → Type 0
IsWindow size = (size ≡ 0x1000) ⊎ (size ≡ 0x800)

low_two : (a : ℕ) → bit_and a 3 ≡ a % 4
low_two a = and_low_mask 2 a

above_near : (a : ℕ) → a < 2 ^ 32 → bit_and a 0xfffff000 ≡ a / 4096 * 4096
above_near a h =
    let low : bit_and (a / 4096) (2 ^ 20 - 1) ≡ a / 4096 % 2 ^ 20 = and_low_mask 20 (a / 4096) in
    omega (arith, and_high 12 a (2 ^ 20 - 1), low)

above_far : (a : ℕ) → a < 2 ^ 32 → bit_and a 0xfffff800 ≡ a / 2048 * 2048
above_far a h =
    let low : bit_and (a / 2048) (2 ^ 21 - 1) ≡ a / 2048 % 2 ^ 21 = and_low_mask 21 (a / 2048) in
    omega (arith, and_high 11 a (2 ^ 21 - 1), low)

-- `a&~max` is 0 if a is in the window.
in_window :
    (size a : ℕ) → IsWindow size → a < 2 ^ 32 → (bit_and a (not32 (size - 1)) == 0) ≡ ltb a size
in_window size a (inl e) h = rw (e, above_near a h) (ground arith)
in_window size a (inr e) h = rw (e, above_far a h) (ground arith)

abbrev pub block : ℕ → ℕ → ℕ → CtrlRw
block offset fifo count = record { offset = offset; fifo = fifo; count = count }

-- A block at a multiple of 4 in the window, and, unless it is a FIFO, with its end before the window's.
abbrev pub is_inside : ℕ → ℕ → ℕ → ℕ → Bool
is_inside size offset fifo count =
    offset % 4 == 0 && ltb offset size && (not (fifo == 0) || ltb (offset + count * 4) size)

-- Blocks whose size does not wrap around are let through exactly if they lie in the window and end before
-- its end: a block that ends with the last register is refused. With 2 ^ 30 words more, whose bytes wrap
-- around to the same number, the answer is the same, so that blocks are let through that go far beyond the
-- window. The counts below 2 ^ 30 - 2 ^ 10 are those whose end cannot wrap around.
pub block_check-bounds :
    (size offset fifo count : ℕ)
    → IsWindow size
    → offset < 2 ^ 32
    → count < 2 ^ 30 - 2 ^ 10
    → (ioctl_ctrl_block_check (block offset fifo count) (size - 1)
        ≡ (if is_inside size offset fifo count then 0 else einval))
      × (ioctl_ctrl_block_check (block offset fifo (count + 2 ^ 30)) (size - 1)
          ≡ ioctl_ctrl_block_check (block offset fifo count) (size - 1))
unfolding ioctl_ctrl_block_check
block_check-bounds size offset fifo count window h few = (exact, wraps)
  where
    near : ltb offset size ≡ true → (offset + count * 4) % 2 ^ 32 ≡ offset + count * 4
    near e = small window (ground (arith, e))
      where
        small : IsWindow size → offset < size → (offset + count * 4) % 2 ^ 32 ≡ offset + count * 4
        small (inl w) k = omega (arith, w)
        small (inr w) k = omega (arith, w)

    same : (offset + (count + 2 ^ 30) * 4) % 2 ^ 32 ≡ (offset + count * 4) % 2 ^ 32
    same = omega arith

    wraps :
        ioctl_ctrl_block_check (block offset fifo (count + 2 ^ 30)) (size - 1)
        ≡ ioctl_ctrl_block_check (block offset fifo count) (size - 1)
    wraps = rw same refl

    exact :
        ioctl_ctrl_block_check (block offset fifo count) (size - 1)
        ≡ (if is_inside size offset fifo count then 0 else einval)
    exact =
        rw
          (
            low_two offset,
            in_window size offset window h,
            in_window size ((offset + count * 4) % 2 ^ 32) window (omega arith),
          )
          (elim (Bool-cases (offset % 4 == 0)) [
            | inr e ↦ rw e refl
            | inl e ↦ rw e (elim (Bool-cases (ltb offset size)) [
              | inr f ↦ rw f refl
              | inl f ↦
                  rw (f, near f)
                    (elim (Bool-cases (fifo == 0)) [
                      | inr g ↦ rw g refl
                      | inl g ↦ rw g (elim (Bool-cases (ltb (offset + count * 4) size)) [
                        | inl i ↦ rw i refl
                        | inr i ↦ rw i refl
                      ])
                    ])
            ])
          ])
