-- ===== src/Irq/Steps.antt =====
-- The steps of which the functions of sis3100rem_irq.c and sis5100rem_irq.c
-- (sis3100/sis1100-2.13/src) consist, each with the rest of the function.
use mdaq_midas.Common.{ℕ, true, Option, none, some}
use mdaq_midas.Bus.{Device, World, ◌>>◌, lam_enable, Responsive}
use mdaq_midas.Bus.Spec.{Returns, Returns-cases}
use mdaq_midas.Remote.{remote_reg_read}
use mdaq_midas.Irq.Far.{put_far, if_any}
use mdaq_midas.Irq.Under.{
  Under, Under-trans, Under-refl, Under-then, put_far-Under, get_far-Under, if_any-Under,
}

module _ (d : Device) (r : Responsive d) where
  maybe_put :
      (mask offs v : ℕ) {u : World} (w : World)
      → Under u w
      → Returns (λ _ w'. Under w w') (if_any mask (put_far offs v) d w)
  maybe_put mask offs v w k =
      if_any-Under mask (put_far offs v) d w k (put_far-Under offs v d w r k)

  maybe_puts :
      (mask offs v offs' v' : ℕ) {u : World} (w : World)
      → Under u w
      → Returns (λ _ w'. Under w w') (if_any mask (put_far offs v >> put_far offs' v') d w)
  maybe_puts mask offs v offs' v' w k =
      if_any-Under mask (put_far offs v >> put_far offs' v') d w k (
        Under-then (λ _ w'. Under w w') w (put_far offs v d w) (λ _. put_far offs' v' d)
          (Under-refl k) (put_far-Under offs v d w r k)
          λ _ w1 k1.
            let (x, w2, eq, k2) =
              Returns-cases _ (put_far offs' v' d w1) (put_far-Under offs' v' d w1 r k1) in
            rw (eq, Returns) (Under-trans k1 k2))

  -- The rest of a function after a write, after a write under a condition, after two of them.
  pub put_then :
      {B : Type 0} (Q : B → World → Type 0) (offs v : ℕ) (u : World)
      (f : Unit {0} → World → Option (B × World)) (w : World)
      → Under u w
      → ((w1 : World) → Under u w1 → Returns Q (f tt w1))
      → Returns Q (elim (put_far offs v d w) [ none ↦ none | some (a, w) ↦ f a w ])
  put_then Q offs v u f w k g =
      Under-then Q u (put_far offs v d w) f k (put_far-Under offs v d w r k) λ _ w1 k1. g w1 k1

  pub maybe_then :
      {B : Type 0} (Q : B → World → Type 0) (mask offs v : ℕ) (u : World)
      (f : Unit {0} → World → Option (B × World)) (w : World)
      → Under u w
      → ((w1 : World) → Under u w1 → Returns Q (f tt w1))
      → Returns Q (elim (if_any mask (put_far offs v) d w) [ none ↦ none | some (a, w) ↦ f a w ])
  maybe_then Q mask offs v u f w k g =
      Under-then Q u (if_any mask (put_far offs v) d w) f k (maybe_put mask offs v w k)
        λ _ w1 k1. g w1 k1

  pub maybes_then :
      {B : Type 0} (Q : B → World → Type 0) (mask offs v offs' v' : ℕ) (u : World)
      (f : Unit {0} → World → Option (B × World)) (w : World)
      → Under u w
      → ((w1 : World) → Under u w1 → Returns Q (f tt w1))
      → Returns Q (elim (if_any mask (put_far offs v >> put_far offs' v') d w) [
        | none ↦ none
        | some (a, w) ↦ f a w
      ])
  maybes_then Q mask offs v offs' v' u f w k g =
      Under-then Q u (if_any mask (put_far offs v >> put_far offs' v') d w) f k
        (maybe_puts mask offs v offs' v' w k) λ _ w1 k1. g w1 k1

  pub lams_then :
      {B : Type 0} (Q : B → World → Type 0) (u : World) (f : ℕ × ℕ → World → Option (B × World))
      (w : World)
      → Under u w
      → ((e v : ℕ) (w1 : World) → Under u w1 → Returns Q (f (e, v) w1))
      → Returns Q (elim (remote_reg_read lam_enable true d w) [ none ↦ none | some (a, w) ↦ f a w ])
  lams_then Q u f w k g =
      Under-then Q u (remote_reg_read lam_enable true d w) f k (get_far-Under lam_enable d w r k)
        λ a w1 k1. g a.0 a.1 w1 k1
