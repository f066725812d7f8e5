-- ===== src/Files/Positions.antt =====
-- Where sis1100_llseek (sis3100/sis1100-2.13/src/sis1100_llseek_linux.c) goes.
use mdaq_midas.Common.{
  ℕ, ◌+◌, ◌-◌, ◌%◌, ◌^◌, ◌≡◌, ◌≤◌, ◌<◌, ◌⊎◌, inl, inr, refl, arith, ◌==◌, ◌||◌, ltb, leb, true,
  false, Bool-cases, if◌then◌else◌, Option, none, some,
}
use mdaq_midas.Bus.{
  Softc, Subdev, subdev_ram, subdev_remote, subdev_ctrl, subdev_dsp, hw_eq, hw_invalid,
}
use mdaq_midas.Files.Seek.{
  minus_einval, seek_set, seek_cur, seek_end, limit, from_end, target, llseek,
}

-- A way to go, in exact arithmetic.
pub data Move : Type 0 where
  forward backward : ℕ → Move

-- It fits into a loff_t.
abbrev pub Fits : Move → Type 0
Fits (forward n) = n < 2 ^ 63
Fits (backward n) = n ≤ 2 ^ 63

abbrev pub pattern_of : Move → ℕ
pattern_of (forward n) = n
pattern_of (backward n) = (2 ^ 64 - n) % 2 ^ 64

-- From a position, or off the beginning.
abbrev pub moved : ℕ → Move → Option ℕ
moved p (forward n) = some (p + n)
moved p (backward n) = if leb n p then some (p - n) else none

-- The new position if it exists and is not behind the limit; the old one and -EINVAL if not.
abbrev pub exactly : ℕ → ℕ → Option ℕ → ℕ × ℕ
exactly high old none = (minus_einval, old)
exactly high old (some t) = if leb t high then (t, t) else (minus_einval, old)

-- SEEK_END goes on from the end of the memory, which is at 0 without a link.
abbrev pub end_of : Softc → ℕ
end_of sc = if hw_eq sc.remote_hw hw_invalid then 0 else sc.ram_size

abbrev pub from_memory_end : Softc → Subdev → Move → Option ℕ
from_memory_end sc subdev_ram m = moved (end_of sc) m
from_memory_end sc _ m = none

-- The place that a call asks for, if there is one.
abbrev pub destination : Softc → Subdev → ℕ → Move → ℕ → Option ℕ
destination sc subdev old m orig =
    if orig == seek_set
    then moved 0 m
    else if orig == seek_cur
    then moved old m
    else if orig == seek_end
    then from_memory_end sc subdev m
    else some old

-- The test of the target in 64 bits.
abbrev checked : ℕ → ℕ → ℕ → ℕ × ℕ
checked high old t = if leb (2 ^ 63) t || ltb high t then (minus_einval, old) else (t, t)

outside : (high t : ℕ) → high < t → leb (2 ^ 63) t || ltb high t ≡ true
outside high t h = ground arith

inside : (high t : ℕ) → high < 2 ^ 63 → t ≤ high → leb (2 ^ 63) t || ltb high t ≡ false
inside high t h k = ground arith

below : (a b : ℕ) → a ≤ b → leb a b ≡ true
below a b h = ground arith

above : (a b : ℕ) → b < a → leb a b ≡ false
above a b h = ground arith

checked-exactly : (high old t : ℕ) → high < 2 ^ 63 → checked high old t ≡ exactly high old (some t)
checked-exactly high old t h = elim (le_or_lt t high) [
  | inl k ↦ rw (inside high t h k, below t high k) refl
  | inr k ↦ rw (outside high t k, above t high k) refl
]
  where
    le_or_lt : (a b : ℕ) → (a ≤ b) ⊎ (b < a)
    le_or_lt a b = grind arith

checked-exact :
    (high old p : ℕ) (m : Move)
    → high < 2 ^ 63
    → p < 2 ^ 63
    → Fits m
    → checked high old ((p + pattern_of m) % 2 ^ 64) ≡ exactly high old (moved p m)
checked-exact high old p (forward n) h hp f =
    let small : (p + n) % 2 ^ 64 ≡ p + n = omega arith in
    rw small (checked-exactly high old (p + n) h)
checked-exact high old p (backward n) h hp f = elim (Bool-cases (leb n p)) [
  | inl e ↦
      let back : (p + (2 ^ 64 - n) % 2 ^ 64) % 2 ^ 64 ≡ p - n = ground (arith, e) in
      rw (e, back) (checked-exactly high old (p - n) h)
  | inr e ↦
      let far : high < (p + (2 ^ 64 - n) % 2 ^ 64) % 2 ^ 64 = ground (arith, e) in
      rw (e, outside high ((p + (2 ^ 64 - n) % 2 ^ 64) % 2 ^ 64) far) refl
]

pattern-lt : (m : Move) → Fits m → pattern_of m < 2 ^ 64
pattern-lt (forward n) f = omega arith
pattern-lt (backward n) f = omega arith

from_start :
    (high old : ℕ) (m : Move)
    → high < 2 ^ 63
    → Fits m
    → checked high old (pattern_of m) ≡ exactly high old (moved 0 m)
from_start high old m h f =
    let same : (0 + pattern_of m) % 2 ^ 64 ≡ pattern_of m = omega (arith, pattern-lt m f) in
    let e = checked-exact high old 0 m h (omega arith) f in rw same at e

limit-lt : (sc : Softc) (subdev : Subdev) → sc.ram_size < 2 ^ 63 → limit sc subdev < 2 ^ 63
limit-lt sc subdev_ram h = h
limit-lt sc subdev_remote h = omega arith
limit-lt sc subdev_ctrl h = omega arith
limit-lt sc subdev_dsp h = omega arith

-- What sis1100_llseek does with a target.
abbrev settled : ℕ → ℕ → Option ℕ → ℕ × ℕ
settled high old none = (minus_einval, old)
settled high old (some t) = checked high old t

from_end-exact :
    (sc : Softc) (subdev : Subdev) (old : ℕ) (m : Move)
    → sc.ram_size < 2 ^ 63
    → Fits m
    → settled (limit sc subdev) old (from_end sc subdev (pattern_of m))
      ≡ exactly (limit sc subdev) old (from_memory_end sc subdev m)
from_end-exact sc subdev_ram old m h f = elim (Bool-cases (hw_eq sc.remote_hw hw_invalid)) [
  | inl e ↦ rw e (from_start sc.ram_size old m h f)
  | inr e ↦ rw e (checked-exact sc.ram_size old sc.ram_size m h h f)
]
from_end-exact sc subdev_remote old m h f = refl
from_end-exact sc subdev_ctrl old m h f = refl
from_end-exact sc subdev_dsp old m h f = refl

stays : (high old : ℕ) (o : Option ℕ) → old ≤ high → (exactly high old o).1 ≤ high
stays high old none k = k
stays high old (some t) k = elim (Bool-cases (leb t high)) [
  | inl e ↦ rw e (ground (arith, e))
  | inr e ↦ rw e k
]

goes :
    (sc : Softc) (subdev : Subdev) (old orig : ℕ) (m : Move)
    → sc.ram_size < 2 ^ 63
    → old ≤ limit sc subdev
    → Fits m
    → settled (limit sc subdev) old (target sc subdev old (pattern_of m) orig)
      ≡ exactly (limit sc subdev) old (destination sc subdev old m orig)
unfolding target
goes sc subdev old orig m h k f =
    let high = limit sc subdev in
    let lt = limit-lt sc subdev h in
    elim (Bool-cases (orig == seek_set)) [
      | inl e ↦ rw e (from_start high old m lt f)
      | inr e ↦ rw e (elim (Bool-cases (orig == seek_cur)) [
        | inl e ↦ rw e (checked-exact high old old m lt (omega arith) f)
        | inr e ↦ rw e (elim (Bool-cases (orig == seek_end)) [
          | inl e ↦ rw e (from_end-exact sc subdev old m h f)
          | inr e ↦ rw e (checked-exactly high old old lt)
        ])
      ])
    ]

-- sis1100_llseek, which computes with 64-bit patterns, goes where exact arithmetic says: to the offset,
-- to the old position and the offset, or to the end of the memory and the offset, if this is neither
-- before 0 nor behind the limit of the file; else, and for SEEK_END on another file than the memory, it
-- returns -EINVAL and stays. This holds if the size of the memory fits into a loff_t and the old position
-- is not behind the limit; then the new one is not either.
pub llseek-exactly :
    (sc : Softc) (subdev : Subdev) (old orig : ℕ) (m : Move)
    → sc.ram_size < 2 ^ 63
    → old ≤ limit sc subdev
    → Fits m
    → (llseek sc subdev old (pattern_of m) orig
        ≡ exactly (limit sc subdev) old (destination sc subdev old m orig))
      × ((llseek sc subdev old (pattern_of m) orig).1 ≤ limit sc subdev)
unfolding llseek
llseek-exactly sc subdev old orig m h k f =
    let same : llseek sc subdev old (pattern_of m) orig ≡ _ = goes sc subdev old orig m h k f in
    (same, rw same (stays (limit sc subdev) old (destination sc subdev old m orig) k))
