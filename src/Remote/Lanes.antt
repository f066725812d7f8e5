-- ===== src/Remote/Lanes.antt =====
-- What the byte lanes of a transaction carry: the byte enables of its header, and the data.
use mdaq_midas.Common.{
  ℕ, zero, suc, ◌+◌, ◌*◌, ◌/◌, ◌%◌, ◌^◌, ◌<◌, bit_and, ◌≡◌, refl, ◌⊎◌, inl, inr, arith, ltb, leb,
  ◌&&◌, bit_at, test_bit, and_low_mask, and_bit_one, below_four,
}
use mdaq_midas.Remote.Defs.{byte_enable, extract, spread, spread_half, spread_byte, place, shl32}

-- The sizes that a transaction can have, in bytes.
abbrev pub IsSize : ℕ → Type 0
IsSize size = (size ≡ 1) ⊎ (size ≡ 2) ⊎ (size ≡ 4)

pub low_two : (addr : ℕ) → bit_and addr 3 ≡ addr % 4
low_two addr = and_low_mask 2 addr

low_byte : (v : ℕ) → bit_and v 0xff ≡ v % 256
low_byte v = and_low_mask 8 v

low_half : (v : ℕ) → bit_and v 0xffff ≡ v % 65536
low_half v = and_low_mask 16 v

half_of_four : (addr : ℕ) → addr % 2 ≡ 0 → addr % 4 ≡ addr / 2 % 2 * 2
half_of_four addr h = omega arith

byte_on_lane : (v r : ℕ) → v < 256 → r < 4 → spread_byte v / 2 ^ (r * 2 ^ 3) % 256 ≡ v
byte_on_lane v r h p =
    below_four (λ r. spread_byte v / 2 ^ (r * 2 ^ 3) % 256 ≡ v) (omega arith) (omega arith)
      (omega arith) (omega arith) r p

half_on_lane :
    (v r : ℕ) → v < 65536 → r < 4 → spread_half v / 2 ^ (r / 2 % 2 * 2 * 2 ^ 3) % 65536 ≡ v
half_on_lane v r h p =
    below_four (λ r. spread_half v / 2 ^ (r / 2 % 2 * 2 * 2 ^ 3) % 65536 ≡ v) (omega arith)
      (omega arith) (omega arith) (omega arith) r p

byte_alone : (v r : ℕ) → v < 256 → r < 4 → shl32 v (r * 2 ^ 3) / 2 ^ (r * 2 ^ 3) % 256 ≡ v
byte_alone v r h p =
    below_four (λ r. shl32 v (r * 2 ^ 3) / 2 ^ (r * 2 ^ 3) % 256 ≡ v) (omega arith) (omega arith)
      (omega arith) (omega arith) r p

half_alone :
    (v q : ℕ) → v < 65536 → q < 2 → shl32 v (q * 2 * 2 ^ 3) / 2 ^ (q * 2 * 2 ^ 3) % 65536 ≡ v
half_alone v zero h p = omega arith
half_alone v (suc zero) h p = omega arith
half_alone v (suc (suc q)) h p = absurd (omega arith)

-- A datum that fits its size and that tmp_write has put on the lanes is what tmp_read takes from
-- them at the same address, aligned or not.
pub extract-spread :
    (size addr old v : ℕ)
    → IsSize size
    → v < 2 ^ (8 * size)
    → extract size addr old (spread size v) ≡ v
unfolding extract spread
extract-spread size addr old v (inl e) h =
    let fits : v < 256 = rw e at h in
    let small : v % 256 ≡ v = omega arith in
    rw (e, low_byte v, low_two addr, low_byte, small) (byte_on_lane v (addr % 4) fits (omega arith))
extract-spread size addr old v (inr (inl e)) h =
    let fits : v < 65536 = rw e at h in
    let small : v % 65536 ≡ v = omega arith in
    let lane : addr / 2 % 2 ≡ addr % 4 / 2 % 2 = omega arith in
    rw (e, low_half v, and_bit_one addr, low_half, small, lane)
      (half_on_lane v (addr % 4) fits (omega arith))
extract-spread size addr old v (inr (inr e)) h = rw e

-- The same for tmp_write_blind, which fills the addressed lanes alone, at an aligned address.
pub extract-place :
    (size addr old v : ℕ)
    → IsSize size
    → addr % size ≡ 0
    → v < 2 ^ (8 * size)
    → extract size addr old (place size addr v) ≡ v
unfolding extract place
extract-place size addr old v (inl e) al h =
    let fits : v < 256 = rw e at h in
    let small : v % 256 ≡ v = omega arith in
    rw (e, low_byte v, low_two addr, low_byte, small) (byte_alone v (addr % 4) fits (omega arith))
extract-place size addr old v (inr (inl e)) al h =
    let fits : v < 65536 = rw e at h in
    let even : addr % 2 ≡ 0 = rw e at al in
    let small : v % 65536 ≡ v = omega arith in
    rw (e, low_half v, low_two addr, half_of_four addr even, and_bit_one addr, low_half, small)
      (half_alone v (addr / 2 % 2) fits (omega arith))
extract-place size addr old v (inr (inr e)) al h =
    let fits : v < 2 ^ 32 = rw e at h in
    let start : addr % 4 ≡ 0 = rw e at al in
    rw (e, low_two addr, start, and_low_mask 32 v) (omega arith)

abbrev Enabled : ℕ → ℕ → ℕ → ℕ → Type 0
Enabled mask size r i = test_bit (24 + i) (shl32 mask r) ≡ (leb r i && ltb i (r + size))

one_lane : (r i : ℕ) → r < 4 → i < 4 → Enabled 0x01000000 1 r i
unfolding bit_at
one_lane r i hr hi =
    below_four (λ r. Enabled 0x01000000 1 r i)
      (below_four (Enabled 0x01000000 1 0) refl refl refl refl i hi)
      (below_four (Enabled 0x01000000 1 1) refl refl refl refl i hi)
      (below_four (Enabled 0x01000000 1 2) refl refl refl refl i hi)
      (below_four (Enabled 0x01000000 1 3) refl refl refl refl i hi) r hr

two_lanes : (q i : ℕ) → q < 2 → i < 4 → Enabled 0x03000000 2 (q * 2) i
unfolding bit_at
two_lanes zero i hq hi = below_four (Enabled 0x03000000 2 0) refl refl refl refl i hi
two_lanes (suc zero) i hq hi = below_four (Enabled 0x03000000 2 2) refl refl refl refl i hi
two_lanes (suc (suc q)) i hq hi = absurd (omega arith)

four_lanes : (i : ℕ) → i < 4 → Enabled 0x0f000000 4 0 i
unfolding bit_at
four_lanes i hi = below_four (Enabled 0x0f000000 4 0) refl refl refl refl i hi

-- Lane i, which the header's digit 24 + i enables, is enabled exactly when it is one of the `size`
-- lanes from the address on: for each size, at an address that is aligned to it.
pub byte_enable-lanes :
    (size addr i : ℕ)
    → IsSize size
    → addr % size ≡ 0
    → i < 4
    → test_bit (24 + i) (byte_enable size addr) ≡ (leb (addr % 4) i && ltb i (addr % 4 + size))
unfolding byte_enable
byte_enable-lanes size addr i (inl e) al h =
    rw (e, low_two addr) (one_lane (addr % 4) i (omega arith) h)
byte_enable-lanes size addr i (inr (inl e)) al h =
    let even : addr % 2 ≡ 0 = rw e at al in
    rw (e, low_two addr, half_of_four addr even) (two_lanes (addr / 2 % 2) i (omega arith) h)
byte_enable-lanes size addr i (inr (inr e)) al h =
    let start : addr % 4 ≡ 0 = rw e at al in rw (e, low_two addr, start) (four_lanes i h)
