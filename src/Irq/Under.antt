-- ===== src/Irq/Under.antt =====
-- The rules by which a function that talks to the other side is shown to keep the lock discipline.
use mathlib.Core.Path.{subst}
use mdaq_midas.Common.{
  Bool, List, ◌∷◌, ℕ, ◌≡◌, refl, ap, Bool-cases, inl, inr, ◌∙◌, ◌==◌, true, false, not, Option,
  none, some,
}
use mdaq_midas.Bus.{Access, Softc, Device, World, M, log, acquire, release, sem_hw, Responsive}
use mdaq_midas.Bus.Spec.{
  Returns, Returns-cases, Returns-then, held, locks, taken_once, freed_once, Disciplined,
}
use mdaq_midas.Remote.{remote_reg_write, remote_reg_read}
use mdaq_midas.Remote.Cycle.{IsCycle}
use mdaq_midas.Remote.Registers.{remote_reg_write-IsCycle, remote_reg_read-IsCycle}
use mdaq_midas.Irq.Far.{put_far, if_any}

-- What is known of IRQs, their owners and the other side is as before.
pub record Same (s s' : Softc) : Type 0 where
  pub same_fdata : s'.fdata ≡ s.fdata
  pub same_pending : s'.pending_irqs ≡ s.pending_irqs
  pub same_hw : s'.remote_hw ≡ s.remote_hw
  pub same_ident : s'.remote_ident ≡ s.remote_ident

-- A state of a function that holds sem_hw since u.
pub record Under (u w : World) : Type 0 where
  pub same : Same u.sc w.sc
  pub holds : held w.trace ≡ true
  pub locking : locks w.trace ≡ taken_once (held u.trace) (locks u.trace)
  pub disciplined : Disciplined w.trace

-- A function has run that took sem_hw once and has freed it.
pub record Freed (w w' : World) : Type 0 where
  pub same : Same w.sc w'.sc
  pub free : held w'.trace ≡ false
  pub locking : locks w'.trace ≡ release sem_hw ∷ acquire sem_hw ∷ locks w.trace
  pub disciplined : Disciplined w'.trace

pub Same-refl : (s : Softc) → Same s s
Same-refl s = record { same_fdata = refl; same_pending = refl; same_hw = refl; same_ident = refl }

pub Same-eq : (s s' : Softc) → s' ≡ s → Same s s'
Same-eq s s' e = record {
  same_fdata = ap (λ s. s.fdata) e;
  same_pending = ap (λ s. s.pending_irqs) e;
  same_hw = ap (λ s. s.remote_hw) e;
  same_ident = ap (λ s. s.remote_ident) e;
}

pub Same-trans : {r s t : Softc} → Same r s → Same s t → Same r t
Same-trans a b = record {
  same_fdata = b.same_fdata ∙ a.same_fdata;
  same_pending = b.same_pending ∙ a.same_pending;
  same_hw = b.same_hw ∙ a.same_hw;
  same_ident = b.same_ident ∙ a.same_ident;
}

-- What `taken_once` says when sem_hw was held, and when it was free.
kept_locks : {b : Bool} {ks ls : List Access} → b ≡ true → ks ≡ taken_once b ls → ks ≡ ls
kept_locks {ks = ks} {ls = ls} e h = subst (λ b. ks ≡ taken_once b ls) e h

fresh_locks :
    {b : Bool} {ks ls : List Access} → b ≡ false → ks ≡ taken_once b ls → ks ≡ acquire sem_hw ∷ ls
fresh_locks {ks = ks} {ls = ls} e h = subst (λ b. ks ≡ taken_once b ls) e h

-- A part that has not touched the lock, which is held.
pub held_locking : {b : Bool} {ks ls : List Access} → b ≡ true → ks ≡ ls → ks ≡ taken_once b ls
held_locking h e = rw h e

-- A cycle of a caller that holds sem_hw.
pub nested_locking :
    {v w : World} {sent : List Access} {e : ℕ}
    → held v.trace ≡ true
    → IsCycle v sent e w
    → locks w.trace ≡ taken_once (held v.trace) (locks v.trace)
nested_locking {v} {w} h c =
    rw h (subst (λ b. locks w.trace ≡ freed_once b (locks v.trace)) h c.locking)

pub Under-trans : {u v w : World} → Under u v → Under v w → Under u w
Under-trans {u} {v} {w} a b = record {
  same = Same-trans a.same b.same;
  holds = b.holds;
  locking = kept_locks a.holds b.locking ∙ a.locking;
  disciplined = b.disciplined;
}

pub Under-refl : {u w : World} → Under u w → Under w w
Under-refl {w = w} a = record {
  same = Same-refl w.sc;
  holds = a.holds;
  locking = held_locking a.holds refl;
  disciplined = a.disciplined;
}

-- With sem_hw free it is taken,
pub Under-lock :
    (w : World) → held w.trace ≡ false → Disciplined w.trace → Under w (log (acquire sem_hw) w)
Under-lock w free dis = record {
  same = Same-refl w.sc;
  holds = refl;
  locking = rw free refl;
  disciplined = (free, dis);
}

-- and freed at the end.
pub Under-unlock :
    {w w' : World} → held w.trace ≡ false → Under w w' → Freed w (log (release sem_hw) w')
Under-unlock free a = record {
  same = a.same;
  free = refl;
  locking = ap (λ l. release sem_hw ∷ l) (fresh_locks free a.locking);
  disciplined = (a.holds, a.disciplined);
}

-- A part of a function's body, and what is left of it.
pub Under-then :
    {A B : Type 0} (Q : B → World → Type 0) (u : World) (out : Option (A × World))
    (f : A → World → Option (B × World)) {w : World}
    → Under u w
    → Returns (λ _ w'. Under w w') out
    → ((a : A) (w' : World) → Under u w' → Returns Q (f a w'))
    → Returns Q (elim out [ none ↦ none | some (a, w) ↦ f a w ])
Under-then Q u out f {w} k h g =
    Returns-then (λ _ w'. Under w w') Q out f h λ a w' e. g a w' (Under-trans k e)

pub put_far-Under :
    (offs v : ℕ) (d : Device) {u : World} (w : World)
    → Responsive d
    → Under u w
    → Returns (λ _ w'. Under w w') (put_far offs v d w)
unfolding put_far
put_far-Under offs v d w r k =
    let (x, w1, eq, c) =
      Returns-cases _ (remote_reg_write offs v true d w)
        (remote_reg_write-IsCycle offs v true d w r k.holds k.disciplined) in
    rw (eq, Returns)
      (record {
        same = Same-eq w.sc w1.sc c.same_sc;
        holds = c.same_held ∙ k.holds;
        locking = nested_locking k.holds c;
        disciplined = c.disciplined;
      })

pub get_far-Under :
    (offs : ℕ) (d : Device) {u : World} (w : World)
    → Responsive d
    → Under u w
    → Returns (λ _ w'. Under w w') (remote_reg_read offs true d w)
get_far-Under offs d w r k =
    let (x, w1, eq, c) =
      Returns-cases _ (remote_reg_read offs true d w)
        (remote_reg_read-IsCycle offs true d w r k.holds k.disciplined) in
    rw (eq, Returns)
      (record {
        same = Same-eq w.sc w1.sc c.same_sc;
        holds = c.same_held ∙ k.holds;
        locking = nested_locking k.holds c;
        disciplined = c.disciplined;
      })

pub if_any-Under :
    (mask : ℕ) (m : M (Unit {0})) (d : Device) {u : World} (w : World)
    → Under u w
    → Returns (λ _ w'. Under w w') (m d w)
    → Returns (λ _ w'. Under w w') (if_any mask m d w)
unfolding if_any
if_any-Under mask m d w k h = elim (Bool-cases (not (mask == 0))) [
  | inl e ↦ rw e h
  | inr e ↦ rw e (Under-refl k)
]
