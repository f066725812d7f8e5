-- ===== src/Irq/Highest.antt =====
-- Which VME level sis3100rem_get_vector (sis3100/sis1100-2.13/src/sis3100rem_irq.c) reports.
use mdaq_midas.Common.{
  ℕ, zero, suc, ◌≤◌, ◌<◌, ◌≡◌, refl, ap, ◌⊎◌, inl, inr, ◌==◌, true, false, Bool-cases, ==→eq, ==→ne,
  ne→==, eq→==, ◌≢◌, sym, ◌∙◌, true-ne-false, Bool, ◌&&◌, test_bit, bit_at, bit_at-zero, bit_at-and,
  bit_and, arith,
}
use mathlib.Core.Path.{subst}
use mdaq_midas.Bus.{Softc}
use mdaq_midas.Irq.Far.{sis3100_vme_irqs}
use mdaq_midas.Irq.Get.{
  IrqGet, is_ready, take_vector, invalidate, find_vector, sis3100rem_get_vector,
}

-- No level up to n is ready, and nothing has changed.
abbrev IsIdle : ℕ → ℕ → IrqGet → Softc → IrqGet × Softc → Type 0
IsIdle n irqs data_ sc r =
    ((l : ℕ) → 1 ≤ l → l ≤ n → is_ready sc irqs l ≡ false) × (r ≡ (data_, sc))

-- The highest ready level up to n has been taken.
abbrev IsTaken : ℕ → ℕ → IrqGet → Softc → IrqGet × Softc → Type 0
IsTaken n irqs data_ sc r =
    (l : ℕ) × (1 ≤ l)
    × (l ≤ n)
    × (is_ready sc irqs l ≡ true)
    × ((k : ℕ) → l < k → k ≤ n → is_ready sc irqs k ≡ false)
    × (r ≡ (take_vector sc irqs l data_, invalidate l sc))

up_to : (P : ℕ → Type 0) (n : ℕ) → P (suc n) → (k : ℕ) → k ≤ suc n → (k ≤ n → P k) → P k
up_to P n last k le rest = elim (Bool-cases (k == suc n)) [
  | inl e ↦ rw (==→eq k (suc n) e) last
  | inr e ↦ rest (omega (arith, ==→ne k (suc n) e))
]

find_vector-highest :
    (n irqs : ℕ) (data_ : IrqGet) (sc : Softc)
    → IsIdle n irqs data_ sc (find_vector n irqs data_ sc)
      ⊎ IsTaken n irqs data_ sc (find_vector n irqs data_ sc)
unfolding find_vector
find_vector-highest zero irqs data_ sc = inl ((λ l a b. absurd (omega arith)), refl)
find_vector-highest (suc n) irqs data_ sc = elim (Bool-cases (is_ready sc irqs (suc n))) [
  | inl e ↦ rw e (inr (suc n, omega arith, omega arith, e, (λ k a b. absurd (omega arith)), refl))
  | inr e ↦ rw e (skipped e (find_vector-highest n irqs data_ sc))
]
  where
    Ready : ℕ → Type 0
    Ready k = is_ready sc irqs k ≡ false

    skipped :
        Ready (suc n)
        → IsIdle n irqs data_ sc (find_vector n irqs data_ sc)
          ⊎ IsTaken n irqs data_ sc (find_vector n irqs data_ sc)
        → IsIdle (suc n) irqs data_ sc (find_vector n irqs data_ sc)
          ⊎ IsTaken (suc n) irqs data_ sc (find_vector n irqs data_ sc)
    skipped e (inl (none_ready, same)) = inl ((λ l a b. up_to Ready n e l b (none_ready l a)), same)
    skipped e (inr (l, lo, hi, ready, above, same)) =
        inr (l, lo, omega arith, ready, (λ k a b. up_to Ready n e k b (above k a)), same)

-- Levels 1 to 7 are the digits of the mask of VME IRQs.
vme_digit : (l : ℕ) → 1 ≤ l → l ≤ 7 → bit_at l sis3100_vme_irqs ≡ 1
unfolding bit_at
vme_digit zero a b = absurd (omega arith)
vme_digit (suc zero) a b = refl
vme_digit (suc (suc zero)) a b = refl
vme_digit (suc (suc (suc zero))) a b = refl
vme_digit (suc (suc (suc (suc zero)))) a b = refl
vme_digit (suc (suc (suc (suc (suc zero))))) a b = refl
vme_digit (suc (suc (suc (suc (suc (suc zero)))))) a b = refl
vme_digit (suc (suc (suc (suc (suc (suc (suc zero))))))) a b = refl
vme_digit (suc (suc (suc (suc (suc (suc (suc (suc l)))))))) a b = absurd (omega arith)

not_ready :
    (irqs : ℕ) (sc : Softc) (l : ℕ)
    → bit_and irqs sis3100_vme_irqs ≡ 0
    → 1 ≤ l
    → l ≤ 7
    → is_ready sc irqs l ≡ false
not_ready irqs sc l e a b = rw (ne→== (bit_at l irqs) 1 (omega (arith, clear))) refl
  where
    clear : bit_at l irqs ≡ 0
    clear =
        omega (
          arith,
          vme_digit l a b,
          bit_at-and l irqs sis3100_vme_irqs,
          ap (bit_at l) e,
          bit_at-zero l,
        )

-- A level l is among the IRQs and has a valid vector.
abbrev pub Waiting : ℕ → Softc → ℕ → Type 0
Waiting irqs sc l = (bit_at l irqs ≡ 1) × ((sc.irq_vects l).valid ≡ true)

-- Level `level` has been reported in the result r.0, and its vector is no longer valid in r.1.
pub record Reported (irqs : ℕ) (data_ : IrqGet) (sc : Softc) (r : IrqGet × Softc) : Type 0 where
  pub level : ℕ
  pub low : 1 ≤ level
  pub high : level ≤ 7
  pub waiting : Waiting irqs sc level
  pub highest : (k : ℕ) → level < k → k ≤ 7 → ¬ (Waiting irqs sc k)
  pub told : r.0 ≡ record data_ {
    level = level;
    vector = (sc.irq_vects level).vector;
    irq_time = r.0.irq_time;
  }
  pub time_of_vector : bit_and irqs 0xffffff00 ≡ 0 → r.0.irq_time ≡ (sc.irq_vects level).time
  pub time_before : bit_and irqs 0xffffff00 ≢ 0 → r.0.irq_time ≡ data_.irq_time
  pub spent : (r.1.irq_vects level).valid ≡ false
  pub others : (k : ℕ) → k ≢ level → r.1.irq_vects k ≡ sc.irq_vects k
  pub only_vects : r.1 ≡ record sc { irq_vects = r.1.irq_vects }

-- No level is waiting, and nothing has changed.
abbrev pub Unreported : ℕ → IrqGet → Softc → IrqGet × Softc → Type 0
Unreported irqs data_ sc r = ((l : ℕ) → 1 ≤ l → l ≤ 7 → ¬ (Waiting irqs sc l)) × (r ≡ (data_, sc))

both : (a b : Bool) → (a && b) ≡ true → (a ≡ true) × (b ≡ true)
both true true e = (refl, refl)
both true false e = absurd (true-ne-false (sym e))
both false b e = absurd (true-ne-false (sym e))

ready-Waiting : (irqs : ℕ) (sc : Softc) (l : ℕ) → is_ready sc irqs l ≡ true → Waiting irqs sc l
ready-Waiting irqs sc l e =
    let (a, b) = both (test_bit l irqs) ((sc.irq_vects l).valid) e in (==→eq (bit_at l irqs) 1 a, b)

unready-Waiting :
    (irqs : ℕ) (sc : Softc) (l : ℕ) → is_ready sc irqs l ≡ false → ¬ (Waiting irqs sc l)
unready-Waiting irqs sc l e (a, b) = true-ne-false (sym ready ∙ e)
  where
    ready : is_ready sc irqs l ≡ true
    ready = rw (eq→== (bit_at l irqs) 1 a, b) refl

taken-Reported :
    (irqs : ℕ) (data_ : IrqGet) (sc : Softc) (r : IrqGet × Softc)
    → IsTaken 7 irqs data_ sc r
    → Reported irqs data_ sc r
taken-Reported irqs data_ sc r (l, lo, hi, ready, above, e) =
    subst (Reported irqs data_ sc) (sym e) (record {
      level = l;
      low = lo;
      high = hi;
      waiting = ready-Waiting irqs sc l ready;
      highest = λ k a b. unready-Waiting irqs sc k (above k a b);
      told = refl;
      time_of_vector = λ z. rw (eq→== (bit_and irqs 0xffffff00) 0 z) refl;
      time_before = λ z. rw (ne→== (bit_and irqs 0xffffff00) 0 z) refl;
      spent = rw (eq→== l l refl) refl;
      others = λ k ne. rw (ne→== k l ne) refl;
      only_vects = refl;
    })

-- sis3100rem_get_vector reports the highest VME level from 7 down to 1 that is among the given IRQs
-- and has a valid vector, with that vector, after which the vector is no longer valid, those of the
-- other levels are as before, and so is the rest of the softc; the time becomes that of the vector
-- unless the IRQs have others than the digits 0 to 7. The other fields of the result are as before. If
-- there is no such level, it changes neither the result nor the softc.
pub get_vector-highest :
    (irqs : ℕ) (data_ : IrqGet) (sc : Softc)
    → Unreported irqs data_ sc (sis3100rem_get_vector irqs data_ sc)
      ⊎ Reported irqs data_ sc (sis3100rem_get_vector irqs data_ sc)
unfolding sis3100rem_get_vector
get_vector-highest irqs data_ sc = elim (Bool-cases (bit_and irqs sis3100_vme_irqs == 0)) [
  | inl e ↦ rw e (
      inl (
        (λ l a b.
            unready-Waiting irqs sc l
              (not_ready irqs sc l (==→eq (bit_and irqs sis3100_vme_irqs) 0 e) a b)),
        refl,
      ))
  | inr e ↦ rw e (elim (find_vector-highest 7 irqs data_ sc) [
    | inl (idle, same) ↦ inl ((λ l a b. unready-Waiting irqs sc l (idle l a b)), same)
    | inr k ↦ inr (taken-Reported irqs data_ sc (find_vector 7 irqs data_ sc) k)
  ])
]
