-- ===== src/Eeprom/Lines.antt =====
-- The digits of CNTRL that the EEPROM sees, through the masks of the driver.
use mdaq_midas.Common.{
  ℕ, ◌^◌, ◌≡◌, refl, ◌⊎◌, inl, inr, ◌==◌, true, false, [], ◌∷◌, ◌++◌, bit_and, bit_or, bit_at,
  bit_at-le, bit_at-and, bit_at-or, bit_at-not32, test_bit, not32, and_power, arith, eq→==, ne→==,
}
use native.Mathlib.Nat.{one-le-pow}
use mdaq_midas.Eeprom.Bits.{
  ee_sk, plx9050_eemask, plx9056_eemask, data_lines, start_lines, all_lines, with_data,
}
use mdaq_midas.Eeprom.Wire.{Wire, level}

-- sc->eemask as sis1100_read_eeprom and sis1100_write_eeprom set it.
abbrev pub IsMask : ℕ → Type 0
IsMask m = (m ≡ plx9050_eemask) ⊎ (m ≡ plx9056_eemask)

-- The lines of which the data lines consist: DI alone of those that the EEPROM sees.
data_digits :
    (m : ℕ)
    → IsMask m
    → (bit_at 24 (data_lines m) ≡ 0)
      × (bit_at 25 (data_lines m) ≡ 0)
      × (bit_at 26 (data_lines m) ≡ 1)
unfolding bit_at
data_digits m (inl e) = rw e (refl, refl, refl)
data_digits m (inr e) = rw e (refl, refl, refl)

pub start_digits :
    (m : ℕ)
    → IsMask m
    → (bit_at 24 (start_lines m) ≡ 0)
      × (bit_at 25 (start_lines m) ≡ 1)
      × (bit_at 26 (start_lines m) ≡ 1)
unfolding bit_at
start_digits m (inl e) = rw e (refl, refl, refl)
start_digits m (inr e) = rw e (refl, refl, refl)

pub all_digits : (m : ℕ) → IsMask m → (bit_at 24 (all_lines m) ≡ 1) × (bit_at 25 (all_lines m) ≡ 1)
unfolding bit_at
all_digits m (inl e) = rw e (refl, refl)
all_digits m (inr e) = rw e (refl, refl)

bit_clear : (bits n : ℕ) → bit_at n bits ≡ 0 → (bit_and bits (2 ^ n) == 0) ≡ true
bit_clear bits n h = eq→== _ _ (rw (and_power n bits, h) (omega arith))

bit_set : (bits n : ℕ) → bit_at n bits ≡ 1 → (bit_and bits (2 ^ n) == 0) ≡ false
bit_set bits n h = ne→== _ _ (rw (and_power n bits, h) (omega (arith, one-le-pow n 2)))

digit_cases : (n a : ℕ) → (bit_at n a ≡ 0) ⊎ (bit_at n a ≡ 1)
digit_cases n a = omega (arith, bit_at-le n a)

pub with_data-digits :
    (m bits n cn : ℕ)
    → IsMask m
    → bit_at 25 cn ≡ 1
    → (bit_at 25 (with_data m bits n cn) ≡ 1) × (bit_at 26 (with_data m bits n cn) ≡ bit_at n bits)
with_data-digits m bits n cn im h =
    let l = data_lines m in
    let d = data_digits m im in
    elim (digit_cases n bits) [
      | inl e ↦ rw (bit_clear bits n e) (
        omega (arith, h, d, bit_at-and 25 cn (not32 l), bit_at-not32 25 l),
        omega (arith, e, d, bit_at-and 26 cn (not32 l), bit_at-not32 26 l),
      )
      | inr e ↦ rw (bit_set bits n e) (
        omega (arith, h, d, bit_at-or 25 cn l, bit_at-le 25 l),
        omega (arith, e, d, bit_at-or 26 cn l, bit_at-le 26 cn),
      )
    ]

clock_digits : (bit_at 24 ee_sk ≡ 1) × (bit_at 25 ee_sk ≡ 0) × (bit_at 26 ee_sk ≡ 0)
unfolding bit_at
clock_digits = (refl, refl, refl)

pub clock_low : (v : ℕ) → bit_at 24 (bit_and v (not32 ee_sk)) ≡ 0
clock_low v = omega (arith, clock_digits, bit_at-and 24 v (not32 ee_sk), bit_at-not32 24 ee_sk)

pub clock_low_keeps :
    (v : ℕ)
    → (bit_at 25 (bit_and v (not32 ee_sk)) ≡ bit_at 25 v)
      × (bit_at 26 (bit_and v (not32 ee_sk)) ≡ bit_at 26 v)
clock_low_keeps v = (
  omega (arith, clock_digits, bit_at-and 25 v (not32 ee_sk), bit_at-not32 25 ee_sk, bit_at-le 25 v),
  omega (arith, clock_digits, bit_at-and 26 v (not32 ee_sk), bit_at-not32 26 ee_sk, bit_at-le 26 v),
)

pub clock_high :
    (v : ℕ)
    → (bit_at 24 (bit_or v ee_sk) ≡ 1)
      × (bit_at 25 (bit_or v ee_sk) ≡ bit_at 25 v)
      × (bit_at 26 (bit_or v ee_sk) ≡ bit_at 26 v)
clock_high v = (
  omega (arith, clock_digits, bit_at-or 24 v ee_sk, bit_at-le 24 v),
  omega (arith, clock_digits, bit_at-or 25 v ee_sk),
  omega (arith, clock_digits, bit_at-or 26 v ee_sk),
)

-- A low and a high level of SK under CS clock one bit in.
pub pulse :
    (v : ℕ) (s : Wire)
    → bit_at 24 v ≡ 0
    → bit_at 25 v ≡ 1
    → level (bit_or v ee_sk) (level v s) ≡ record {
      sk = true;
      cs = true;
      taken = s.taken ++ test_bit 26 v ∷ [];
      commands = s.commands;
    }
pulse v s low selected =
    rw (low, selected, (clock_high v).0, (clock_high v).1, (clock_high v).2, selected)
