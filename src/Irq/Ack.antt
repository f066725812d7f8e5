-- ===== src/Irq/Ack.antt =====
-- sis1100_irq_ack (sis3100/sis1100-2.13/src/sis1100_irq_handler.c) acknowledges no IRQ of another.
use mdaq_midas.Common.{
  ℕ, ◌≤◌, ◌≡◌, refl, ap, if◌then◌else◌, Bool, true, false, Bool-cases, inl, inr, bit_at, bit_at-and,
  bit_at-or, bit_at-le, bit_at-not32, bit_and, bit_or, not32, arith, ◌<◌,
}
use mdaq_midas.Bus.{
  Softc, Device, World, log, acquire, Responsive, HwType, hw_invalid, hw_pci, hw_vme, hw_camac,
  hw_lvd, hw_pandapixel, hw_psf4ad, is_full, is_running, sem_irqinfo,
}
use mdaq_midas.Bus.Spec.{Returns, Returns-cases, held, Disciplined}
use mdaq_midas.Irq.Owner.{fdata_at}
use mdaq_midas.Irq.Control.{next_block, repend, ack_far, ack_irqs, irq_ack, zellvd_ddma_irq}
use mdaq_midas.Irq.Far.{sis3100rem_irq_ack, sis5100rem_irq_ack}
use mdaq_midas.Irq.Under.{Freed}
use mdaq_midas.Irq.Discipline.{ack_vme-Safe, ack_camac-Safe}

-- No pending IRQ is lost, the owners are as before, and sem_hw is free.
pub record Acked (w w' : World) : Type 0 where
  pub more : (i : ℕ) → bit_at i w.sc.pending_irqs ≤ bit_at i w'.sc.pending_irqs
  pub same_fdata : w'.sc.fdata ≡ w.sc.fdata
  pub free : held w'.trace ≡ false
  pub disciplined : Disciplined w'.trace

Acked-refl : (w : World) → held w.trace ≡ false → Disciplined w.trace → Acked w w
Acked-refl w free dis = record {
  more = λ i. omega arith;
  same_fdata = refl;
  free = free;
  disciplined = dis;
}

Freed-Acked : (w w' : World) → Freed w w' → Acked w w'
Freed-Acked w w' f = record {
  more = λ i. omega (arith, ap (bit_at i) f.same.same_pending);
  same_fdata = f.same.same_fdata;
  free = f.free;
  disciplined = f.disciplined;
}

repend-more : (sc : Softc) (i : ℕ) → bit_at i sc.pending_irqs ≤ bit_at i (repend sc).pending_irqs
repend-more sc i = more (is_full (sc.demand_dma.block (next_block sc.demand_dma)).status)
  where
    more :
        (b : Bool)
        → bit_at i sc.pending_irqs
          ≤ bit_at i
              (if b
                then record sc { pending_irqs = bit_or sc.pending_irqs zellvd_ddma_irq }
                else sc).pending_irqs
    more true = omega (arith, bit_at-or i sc.pending_irqs zellvd_ddma_irq)
    more false = omega arith

repend-fdata : (sc : Softc) → (repend sc).fdata ≡ sc.fdata
repend-fdata sc = same (is_full (sc.demand_dma.block (next_block sc.demand_dma)).status)
  where
    same :
        (b : Bool)
        → (if b
            then record sc { pending_irqs = bit_or sc.pending_irqs zellvd_ddma_irq }
            else sc).fdata
          ≡ sc.fdata
    same true = refl
    same false = refl

ack_far-Acked :
    (hw : HwType) (irqs : ℕ) (d : Device) (w : World)
    → Responsive d
    → held w.trace ≡ false
    → Disciplined w.trace
    → Returns (λ _ w'. Acked w w') (ack_far hw irqs d w)
unfolding ack_far
ack_far-Acked hw_vme irqs d w r free dis =
    let (x, w1, eq, f) =
      Returns-cases _ (sis3100rem_irq_ack irqs d w) (ack_vme-Safe d r irqs w free dis) in
    rw (eq, Returns) (Freed-Acked w w1 f)
ack_far-Acked hw_camac irqs d w r free dis =
    let (x, w1, eq, f) =
      Returns-cases _ (sis5100rem_irq_ack irqs d w) (ack_camac-Safe d r irqs w free dis) in
    rw (eq, Returns) (Freed-Acked w w1 f)
ack_far-Acked hw_lvd irqs d w r free dis = elim (Bool-cases (is_running w.sc.demand_dma.status)) [
  | inl e ↦ rw e (record {
    more = repend-more w.sc;
    same_fdata = repend-fdata w.sc;
    free = free;
    disciplined = dis;
  })
  | inr e ↦ rw e (Acked-refl w free dis)
]
ack_far-Acked hw_invalid irqs d w r free dis = Acked-refl w free dis
ack_far-Acked hw_pci irqs d w r free dis = Acked-refl w free dis
ack_far-Acked hw_pandapixel irqs d w r free dis = Acked-refl w free dis
ack_far-Acked hw_psf4ad irqs d w r free dis = Acked-refl w free dis

pub ack_irqs-Acked :
    (irqs : ℕ) (d : Device) (w : World)
    → Responsive d
    → held w.trace ≡ false
    → Disciplined w.trace
    → Returns
        (λ _ w'.
          Acked
            (record w {
              sc = record w.sc { pending_irqs = bit_and w.sc.pending_irqs (not32 irqs) };
            })
            w')
        (ack_irqs irqs d w)
unfolding ack_irqs
ack_irqs-Acked irqs d w r free dis =
    ack_far-Acked w.sc.remote_hw irqs d
      (record w { sc = record w.sc { pending_irqs = bit_and w.sc.pending_irqs (not32 irqs) } }) r
      free dis

-- On a responsive device, with sem_hw free, sis1100_irq_ack ends and returns 0, whatever the kind of
-- the other side. A pending IRQ that the caller does not own, or that is not in its mask, is pending
-- afterwards. The files' data are as before, the link is touched only under sem_hw, and sem_hw is
-- free again.
pub irq_ack-spares :
    (self mask : ℕ) (d : Device) (w : World)
    → Responsive d
    → held w.trace ≡ false
    → Disciplined w.trace
    → Returns
        (λ res w'.
          (res ≡ 0)
          × (w'.sc.fdata ≡ w.sc.fdata)
          × (held w'.trace ≡ false)
          × Disciplined w'.trace
          × ((i : ℕ)
              → i < 32
              → bit_at i (bit_and (fdata_at w.sc self).owned_irqs mask) ≡ 0
              → bit_at i w.sc.pending_irqs ≤ bit_at i w'.sc.pending_irqs))
        (irq_ack self mask d w)
unfolding irq_ack
irq_ack-spares self mask d w r free dis =
    let (x, w1, eq, a) =
      Returns-cases _ (ack_irqs irqs d w0) (ack_irqs-Acked irqs d w0 r free dis) in
    rw (eq, Returns)
      (refl, a.same_fdata, a.free, a.disciplined, λ i lt none. spared i lt none (a.more i))
  where
    own : ℕ
    own = bit_and (fdata_at w.sc self).owned_irqs mask

    irqs : ℕ
    irqs = bit_and own w.sc.pending_irqs

    w0 : World
    w0 = log (acquire sem_irqinfo) w

    spared :
        (i : ℕ)
        → i < 32
        → bit_at i own ≡ 0
        → {p : ℕ} → bit_at i (bit_and w.sc.pending_irqs (not32 irqs)) ≤ p
        → bit_at i w.sc.pending_irqs ≤ p
    spared i lt none le = omega (
      arith,
      le,
      bit_at-and i w.sc.pending_irqs (not32 irqs),
      bit_at-not32 i irqs lt,
      bit_at-and i own w.sc.pending_irqs,
      bit_at-le i w.sc.pending_irqs,
    )
