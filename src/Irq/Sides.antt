-- ===== src/Irq/Sides.antt =====
-- sis1100_irq_ctl (sis3100/sis1100-2.13/src/sis1100_irq_handler.c) enables and disables on
-- both sides of the link.
use mdaq_midas.Common.{ℕ, ◌≡◌, ◌∙◌, ◌==◌, Bool, true, false, Bool-cases, inl, inr, List, Option}
use mdaq_midas.Bus.{
  Fdata, Device, World, Responsive, HwType, hw_invalid, hw_pci, hw_vme, hw_camac, hw_lvd,
  hw_pandapixel, hw_psf4ad, when,
}
use mdaq_midas.Bus.Spec.{Returns, Returns-cases, held, Disciplined}
use mdaq_midas.Irq.Far.{
  if_any, sis3100rem_enable_irqs, sis5100rem_enable_irqs, sis3100rem_disable_irqs,
  sis5100rem_disable_irqs,
}
use mdaq_midas.Irq.Control.{enable_irq, disable_irq, enable_far, disable_far}
use mdaq_midas.Irq.Under.{Freed}
use mdaq_midas.Irq.Discipline.{
  enable_vme-Safe, disable_vme-Safe, enable_camac-Safe, disable_camac-Safe,
}

-- The files' data are `fd`, and sem_hw is free.
pub record Fine (fd : List (Option Fdata)) (w : World) : Type 0 where
  pub fdata : w.sc.fdata ≡ fd
  pub free : held w.trace ≡ false
  pub disciplined : Disciplined w.trace

Freed-Fine : {fd : List (Option Fdata)} (w w' : World) → Fine fd w → Freed w w' → Fine fd w'
Freed-Fine w w' k f = record {
  fdata = f.same.same_fdata ∙ k.fdata;
  free = f.free;
  disciplined = f.disciplined;
}

module _ (fd : List (Option Fdata)) (d : Device) (r : Responsive d) where
  pub enable_far-Fine :
      (hw : HwType) (mask : ℕ) (w : World)
      → Fine fd w
      → Returns (λ _ w'. Fine fd w') (enable_far hw mask d w)
  unfolding enable_far
  enable_far-Fine hw_vme mask w k =
      let (x, w1, eq, f) =
        Returns-cases _ (sis3100rem_enable_irqs mask d w)
          (enable_vme-Safe d r mask w k.free k.disciplined) in
      rw (eq, Returns) (Freed-Fine w w1 k f)
  enable_far-Fine hw_camac mask w k =
      let (x, w1, eq, f) =
        Returns-cases _ (sis5100rem_enable_irqs mask d w)
          (enable_camac-Safe d r mask w k.free k.disciplined) in
      rw (eq, Returns) (Freed-Fine w w1 k f)
  enable_far-Fine hw_invalid mask w k = k
  enable_far-Fine hw_pci mask w k = k
  enable_far-Fine hw_lvd mask w k = k
  enable_far-Fine hw_pandapixel mask w k = k
  enable_far-Fine hw_psf4ad mask w k = k

  pub disable_far-Fine :
      (hw : HwType) (mask : ℕ) (w : World)
      → Fine fd w
      → Returns (λ _ w'. Fine fd w') (disable_far hw mask d w)
  unfolding disable_far
  disable_far-Fine hw_vme mask w k =
      let (x, w1, eq, f) =
        Returns-cases _ (sis3100rem_disable_irqs mask d w)
          (disable_vme-Safe d r mask w k.free k.disciplined) in
      rw (eq, Returns) (Freed-Fine w w1 k f)
  disable_far-Fine hw_camac mask w k =
      let (x, w1, eq, f) =
        Returns-cases _ (sis5100rem_disable_irqs mask d w)
          (disable_camac-Safe d r mask w k.free k.disciplined) in
      rw (eq, Returns) (Freed-Fine w w1 k f)
  disable_far-Fine hw_invalid mask w k = k
  disable_far-Fine hw_pci mask w k = k
  disable_far-Fine hw_lvd mask w k = k
  disable_far-Fine hw_pandapixel mask w k = k
  disable_far-Fine hw_psf4ad mask w k = k

  pub enable_local-Fine :
      (vme : Bool) (mask : ℕ) (w : World)
      → Fine fd w
      → Returns (λ _ w'. Fine fd w') (when vme (if_any mask (enable_irq 0 mask)) d w)
  unfolding if_any enable_irq
  enable_local-Fine false mask w k = k
  enable_local-Fine true mask w k = elim (Bool-cases (mask == 0)) [
    | inl e ↦ rw e k
    | inr e ↦
        rw e (record { fdata = k.fdata; free = k.free; disciplined = (tt, (tt, k.disciplined)) })
  ]

  pub disable_local-Fine :
      (vme : Bool) (mask : ℕ) (w : World)
      → Fine fd w
      → Returns (λ _ w'. Fine fd w') (when vme (if_any mask (disable_irq 0 mask)) d w)
  unfolding if_any disable_irq
  disable_local-Fine false mask w k = k
  disable_local-Fine true mask w k = elim (Bool-cases (mask == 0)) [
    | inl e ↦ rw e k
    | inr e ↦ rw e (record { fdata = k.fdata; free = k.free; disciplined = (tt, k.disciplined) })
  ]
