-- ===== src/Common/Bits.antt =====
-- The binary digits of a word. `bit_at i a` is digit i of a as a number, `test_bit` is C's
-- `a & (1 << i)` read as a truth value, `not32` is `~` on a u_int32_t.
use Prim.Native.Nat.{
  ℕ, zero, suc, ◌+◌, ◌-◌, ◌*◌, ◌/◌, ◌%◌, ◌^◌, ◌≤◌, ◌<◌, min, max, digits, bitwise, bit_and, bit_or,
  bit_and-bitwise, bit_or-bitwise,
}
use mathlib.Core.Path.{◌≡◌, refl, sym, ap}
use mathlib.Core.Bool.{Bool}
use native.Mathlib.Omega.{arith}
use native.Mathlib.Nat.{pow-suc, mul_comm, div-div-eq-div-mul, one-le-pow, le_refl}
use mdaq_midas.Common.Tests.{◌==◌}

unfoldable pub bit_at : ℕ → ℕ → ℕ
bit_at zero a = a % 2
bit_at (suc i) a = bit_at i (a / 2)

abbrev pub test_bit : ℕ → ℕ → Bool
test_bit i a = bit_at i a == 1

abbrev pub not32 : ℕ → ℕ
not32 a = 2 ^ 32 - 1 - a % 2 ^ 32

-- The native operations are recursions on digits with fuel; enough fuel is enough.
module _ (z : ℕ → ℕ) (f : ℕ → ℕ → ℕ) where
  enough_digits : (n m a b : ℕ) → a ≤ n → a ≤ m → digits z f n a b ≡ digits z f m a b
  enough_digits zero zero a b p q = refl
  enough_digits zero (suc m) zero b p q = refl
  enough_digits zero (suc m) (suc a) b p q = absurd (omega arith)
  enough_digits (suc n) zero zero b p q = refl
  enough_digits (suc n) zero (suc a) b p q = absurd (omega arith)
  enough_digits (suc n) (suc m) zero b p q = refl
  enough_digits (suc n) (suc m) (suc a) b p q =
      omega (arith, enough_digits n m (suc a / 2) (b / 2) (omega arith) (omega arith))

  last_digit :
      (a b : ℕ)
      → bitwise z f (suc a) b ≡ bitwise z f (suc a / 2) (b / 2) * 2 + f (suc a % 2) (b % 2)
  last_digit a b =
      omega (arith, enough_digits a (suc a / 2) (suc a / 2) (b / 2) (omega arith) (omega arith))

or_digit : (a b : ℕ) → bit_or a b ≡ bit_or (a / 2) (b / 2) * 2 + max (a % 2) (b % 2)
or_digit zero b = simp bit_or-bitwise (omega arith)
or_digit (suc a) b = simp bit_or-bitwise (last_digit (λ y. y) max a b)

and_digit : (a b : ℕ) → bit_and a b ≡ bit_and (a / 2) (b / 2) * 2 + min (a % 2) (b % 2)
and_digit zero b = simp bit_and-bitwise (omega arith)
and_digit (suc a) b = simp bit_and-bitwise (last_digit (λ y. 0) min a b)

pub bit_at-le : (i a : ℕ) → bit_at i a ≤ 1
unfolding bit_at
bit_at-le zero a = omega arith
bit_at-le (suc i) a = bit_at-le i (a / 2)

pub bit_at-zero : (i : ℕ) → bit_at i 0 ≡ 0
unfolding bit_at
bit_at-zero zero = refl
bit_at-zero (suc i) = bit_at-zero i

or_half : (a b : ℕ) → bit_or a b / 2 ≡ bit_or (a / 2) (b / 2)
or_half a b = omega (arith, or_digit a b)

and_half : (a b : ℕ) → bit_and a b / 2 ≡ bit_and (a / 2) (b / 2)
and_half a b = omega (arith, and_digit a b)

pub bit_at-or : (i a b : ℕ) → bit_at i (bit_or a b) ≡ max (bit_at i a) (bit_at i b)
unfolding bit_at
bit_at-or zero a b = omega (arith, or_digit a b)
bit_at-or (suc i) a b = rw (or_half a b) (bit_at-or i (a / 2) (b / 2))

pub bit_at-and : (i a b : ℕ) → bit_at i (bit_and a b) ≡ min (bit_at i a) (bit_at i b)
unfolding bit_at
bit_at-and zero a b = omega (arith, and_digit a b)
bit_at-and (suc i) a b = rw (and_half a b) (bit_at-and i (a / 2) (b / 2))

-- The complement within k digits.
bit_at-complement : (k i a : ℕ) → i < k → a < 2 ^ k → bit_at i (2 ^ k - 1 - a) + bit_at i a ≡ 1
unfolding bit_at
bit_at-complement zero i a h lt = absurd (omega arith)
bit_at-complement (suc k) zero a h lt = omega (arith, pow-suc 2 k)
bit_at-complement (suc k) (suc i) a h lt =
    let half : (2 ^ suc k - 1 - a) / 2 ≡ 2 ^ k - 1 - a / 2 = omega (arith, pow-suc 2 k) in
    rw half (bit_at-complement k i (a / 2) (omega arith) (omega (arith, pow-suc 2 k)))

double_high : (q k : ℕ) → q * 2 ^ suc k ≡ 2 * (q * 2 ^ k)
double_high q k = omega (arith, ap (λ (t : ℕ). q * t) (pow-suc 2 k))

-- Digits below k are those of the low part.
bit_at-low : (k i q r : ℕ) → i < k → bit_at i (q * 2 ^ k + r) ≡ bit_at i r
unfolding bit_at
bit_at-low zero i q r h = absurd (omega arith)
bit_at-low (suc k) zero q r h = omega (arith, double_high q k)
bit_at-low (suc k) (suc i) q r h =
    let half : (q * 2 ^ suc k + r) / 2 ≡ q * 2 ^ k + r / 2 = omega (arith, double_high q k) in
    rw half (bit_at-low k i q (r / 2) (omega arith))

pub bit_at-not32 : (i a : ℕ) → i < 32 → bit_at i (not32 a) ≡ 1 - bit_at i a
bit_at-not32 i a h = omega (
  arith,
  bit_at-complement 32 i (a % 2 ^ 32) h (omega arith),
  bit_at-low 32 i (a / 2 ^ 32) (a % 2 ^ 32) h,
  ap (bit_at i) (split a),
)
  where
    split : (n : ℕ) → n ≡ n / 2 ^ 32 * 2 ^ 32 + n % 2 ^ 32
    split n = omega arith

-- Words with the same digits are the same.
pub bit_at-ext : (n a b : ℕ) → a ≤ n → b ≤ n → ((i : ℕ) → bit_at i a ≡ bit_at i b) → a ≡ b
unfolding bit_at
bit_at-ext zero a b p q h = omega arith
bit_at-ext (suc n) a b p q h =
    let low : a % 2 ≡ b % 2 = h 0 in
    let high : a / 2 ≡ b / 2 =
      bit_at-ext n (a / 2) (b / 2) (omega arith) (omega arith) (λ i. h (suc i)) in
    omega arith

and_zero : (n a : ℕ) → a ≤ n → bit_and a 0 ≡ 0
and_zero n zero h = refl
and_zero zero (suc a) h = absurd (omega arith)
and_zero (suc n) (suc a) h =
    omega (arith, and_digit (suc a) 0, and_zero n (suc a / 2) (omega arith))

and_low : (k q r : ℕ) → r < 2 ^ k → bit_and (q * 2 ^ k + r) (2 ^ k - 1) ≡ r
and_low zero q r h = rw (and_zero (q * 2 ^ 0 + r) (q * 2 ^ 0 + r) (le_refl _)) (omega arith)
and_low (suc k) q r h =
    let half : (q * 2 ^ suc k + r) / 2 ≡ q * 2 ^ k + r / 2 = omega (arith, double_high q k) in
    let ones : (2 ^ suc k - 1) / 2 ≡ 2 ^ k - 1 = omega (arith, pow-suc 2 k) in
    let last : (q * 2 ^ suc k + r) % 2 ≡ r % 2 = omega (arith, double_high q k) in
    let one : (2 ^ suc k - 1) % 2 ≡ 1 = omega (arith, pow-suc 2 k, one-le-pow k 2 (omega arith)) in
    let rest : bit_and (q * 2 ^ k + r / 2) (2 ^ k - 1) ≡ r / 2 =
      and_low k q (r / 2) (omega (arith, pow-suc 2 k)) in
    rw (and_digit (q * 2 ^ suc k + r) (2 ^ suc k - 1), half, ones, last, one, rest) (omega arith)

-- A mask of k low digits is the remainder by 2 ^ k.
pub and_low_mask : (k a : ℕ) → bit_and a (2 ^ k - 1) ≡ a % 2 ^ k
and_low_mask k a = ground (arith, one-le-pow k 2, and_low k (a / 2 ^ k) (a % 2 ^ k))

pub and_bit_one : (a : ℕ) → bit_and a 2 ≡ a / 2 % 2 * 2
and_bit_one a =
    omega
      (arith, and_digit a 2, and_digit (a / 2) 1, and_zero (a / 2 / 2) (a / 2 / 2) (omega arith))

-- C's `a & (1 << n)`.
pub and_power : (n a : ℕ) → bit_and a (2 ^ n) ≡ bit_at n a * 2 ^ n
unfolding bit_at
and_power zero a = omega (arith, and_digit a 1, and_zero (a / 2) (a / 2) (omega arith))
and_power (suc n) a =
    let half : 2 ^ suc n / 2 ≡ 2 ^ n = omega (arith, pow-suc 2 n) in
    let even : 2 ^ suc n % 2 ≡ 0 = omega (arith, pow-suc 2 n) in
    rw (and_digit a (2 ^ suc n), half, even, and_power n (a / 2))
      (omega (arith, double_high (bit_at n (a / 2)) n))

-- Digits that do not overlap: C's `|` is a sum.
pub or_low : (k q r : ℕ) → r < 2 ^ k → bit_or r (q * 2 ^ k) ≡ q * 2 ^ k + r
or_low zero q zero h = simp bit_or-bitwise (omega arith)
or_low zero q (suc r) h = absurd (omega arith)
or_low (suc k) q r h =
    let half : q * 2 ^ suc k / 2 ≡ q * 2 ^ k = omega (arith, double_high q k) in
    let last : q * 2 ^ suc k % 2 ≡ 0 = omega (arith, double_high q k) in
    let rest : bit_or (r / 2) (q * 2 ^ k) ≡ q * 2 ^ k + r / 2 =
      or_low k q (r / 2) (omega (arith, pow-suc 2 k)) in
    rw (or_digit r (q * 2 ^ suc k), half, last, rest) (omega (arith, double_high q k))

-- A mask whose k low digits are 0.
pub and_high : (k a m : ℕ) → bit_and a (m * 2 ^ k) ≡ bit_and (a / 2 ^ k) m * 2 ^ k
and_high zero a m =
    let same : a / 2 ^ 0 ≡ a = omega arith in
    let one : m * 2 ^ 0 ≡ m = omega arith in rw (same, one) (omega arith)
and_high (suc k) a m =
    let half : m * 2 ^ suc k / 2 ≡ m * 2 ^ k = omega (arith, double_high m k) in
    let last : m * 2 ^ suc k % 2 ≡ 0 = omega (arith, double_high m k) in
    let shift : a / 2 ^ suc k ≡ a / 2 / 2 ^ k =
      rw (pow-suc 2 k, mul_comm (2 ^ k) 2) (sym (div-div-eq-div-mul a 2 (2 ^ k))) in
    rw (and_digit a (m * 2 ^ suc k), half, last, shift, and_high k (a / 2) m)
      (omega (arith, double_high (bit_and (a / 2 / 2 ^ k) m) k))
