-- ===== src/Irq/Branches.antt =====
-- sis1100_intr (sis3100/sis1100-2.13/src/sis1100_irq.c) loses no event: each of its branches.
use mdaq_midas.Common.{
  ℕ, ◌≡◌, refl, ap, Bool, true, false, not, ◌==◌, Bool-cases, inl, inr, arith, bit_and, bit_or,
  not32, bit_at, bit_at-zero,
}
use mdaq_midas.Bus.{
  Softc, Device, World, put, acquire, release, lock_intcsr, log, value_at, hw_invalid, plx_l2pdbell,
  plx_intcsr,
}
use mdaq_midas.Bus.Spec.{Returns}
use mdaq_midas.Irq.Control.{disable_irq}
use mdaq_midas.Irq.Far.{if_any}
use mdaq_midas.Irq.Keeps.{
  ◌⊑◌, ⊑-refl, ⊑-or_left, ⊑-or_right, Grows, Grows-refl, Grows-trans, Keeps, Keeps-refl,
  Recorded-Grows, if-Returns,
}
use mdaq_midas.Irq.Intr.{
  hook_or_got, has, stamp, plxirq_doorbell_active, irq_lemo_in_chg, on_doorbell, on_dma0, on_dma1,
  on_synch, on_mbx0, on_lemo, got,
}

pub Grows-got : (m : ℕ) (s : Softc) → Grows s (got m s)
Grows-got m s = record {
  doorbells = ⊑-refl s.doorbell;
  lemos = ⊑-refl s.lemo_status;
  events = ⊑-or_left s.got_irqs m;
  commands = ⊑-refl s.command;
}

pub on_doorbell-Keeps :
    (intcsr t : ℕ) (d : Device) (w : World)
    → Returns (λ _ w'. Keeps w w') (on_doorbell intcsr t d w)
on_doorbell-Keeps intcsr t d w =
    if-Returns _ (has intcsr plxirq_doorbell_active) _ _ d w
      (λ _. record {
        grows = grown;
        recorded = λ r. (⊑-or_right w.sc.doorbell v, Recorded-Grows w.trace grown r);
      })
      (λ _. Keeps-refl w)
  where
    v : ℕ
    v = value_at d w.trace plx_l2pdbell

    grown :
        Grows w.sc (record w.sc {
          doorbell = bit_or w.sc.doorbell v;
          irqtimes = stamp 32 0 v t w.sc.irqtimes;
        })
    grown = record {
      doorbells = ⊑-or_left w.sc.doorbell v;
      lemos = ⊑-refl w.sc.lemo_status;
      events = ⊑-refl w.sc.got_irqs;
      commands = ⊑-refl w.sc.command;
    }

pub on_dma0-Keeps :
    (intcsr : ℕ) (d : Device) (w : World) → Returns (λ _ w'. Keeps w w') (on_dma0 intcsr d w)
on_dma0-Keeps intcsr d w =
    if-Returns (λ _ w'. Keeps w w') (has intcsr 0x200000) _ _ d w (λ _. active w.sc.dma0_hook)
      (λ _. Keeps-refl w)
  where
    cleared : World → World
    cleared w =
        log (release lock_intcsr)
          (log (put plx_intcsr (bit_and intcsr (not32 0x40000))) (log (acquire lock_intcsr) w))

    active : (hook : Bool) → Returns (λ _ w'. Keeps w w') (hook_or_got hook d (cleared w))
    active true = record { grows = Grows-refl w.sc; recorded = λ r. (tt, r) }
    active false = record {
      grows = Grows-got 1 w.sc;
      recorded = λ r. (tt, Recorded-Grows w.trace (Grows-got 1 w.sc) r);
    }

pub on_dma1-Keeps :
    (intcsr : ℕ) (d : Device) (w : World) → Returns (λ _ w'. Keeps w w') (on_dma1 intcsr d w)
on_dma1-Keeps intcsr d w =
    if-Returns (λ _ w'. Keeps w w') (has intcsr 0x400000) _ _ d w
      (λ _. record {
        grows = Grows-got 2 w.sc;
        recorded = λ r. (tt, Recorded-Grows w.trace (Grows-got 2 w.sc) r);
      })
      (λ _. Keeps-refl w)

-- A change of a field that holds no event.
pub Grows-other :
    (s s' : Softc)
    → s'.doorbell ≡ s.doorbell
    → s'.lemo_status ≡ s.lemo_status
    → s'.got_irqs ≡ s.got_irqs
    → s'.command ≡ s.command
    → Grows s s'
Grows-other s s' a b c e = record {
  doorbells = λ i. omega (arith, ap (bit_at i) a);
  lemos = λ i. omega (arith, ap (bit_at i) b);
  events = λ i. omega (arith, ap (bit_at i) c);
  commands = λ i. omega (arith, ap (bit_at i) e);
}

pub on_synch-Keeps :
    (status : ℕ) (d : Device) (w : World) → Returns (λ _ w'. Keeps w w') (on_synch status d w)
unfolding disable_irq if_any
on_synch-Keeps status d w =
    if-Returns (λ _ w'. Keeps w w') (has status 0x10) _ _ d w
      (λ _. elim (Bool-cases (bit_and status 3 == 3)) [
        | inl e ↦ rw e (record {
          grows = Grows-got 32 w.sc;
          recorded = λ r. (tt, Recorded-Grows w.trace (Grows-got 32 w.sc) r);
        })
        | inr e ↦
            rw e (record { grows = down; recorded = λ r. (tt, Recorded-Grows w.trace down r) })
      ])
      (λ _. Keeps-refl w)
  where
    down : Grows w.sc (record (got 32 w.sc) { remote_hw = hw_invalid })
    down = Grows-trans (Grows-got 32 w.sc) (Grows-other (got 32 w.sc) _ refl refl refl refl)

pub on_mbx0-Keeps :
    (status : ℕ) (d : Device) (w : World) → Returns (λ _ w'. Keeps w w') (on_mbx0 status d w)
on_mbx0-Keeps status d w =
    if-Returns (λ _ w'. Keeps w w') (has status 0x400) _ _ d w
      (λ _. record {
        grows = Grows-other w.sc _ refl refl refl refl;
        recorded = λ r. Recorded-Grows w.trace (Grows-other w.sc _ refl refl refl refl) r;
      })
      (λ _. Keeps-refl w)

pub has-false : (a m : ℕ) → has a m ≡ false → bit_and a m ≡ 0
has-false a m e = zero (bit_and a m) e
  where
    zero : (x : ℕ) → not (x == 0) ≡ false → x ≡ 0
    zero x e = ground arith

-- Afterwards the changed inputs are in lemo_status, whether there were any or not.
pub on_lemo-Keeps :
    (status : ℕ) (d : Device) (w : World)
    → Returns
        (λ _ w'. Keeps w w' × (bit_and status irq_lemo_in_chg ⊑ w'.sc.lemo_status))
        (on_lemo status d w)
on_lemo-Keeps status d w =
    if-Returns (λ _ w'. Keeps w w' × (changed ⊑ w'.sc.lemo_status)) (has status irq_lemo_in_chg) _ _
      d w
      (λ _. (
        record { grows = grown _; recorded = λ r. Recorded-Grows w.trace (grown _) r },
        ⊑-or_right w.sc.lemo_status changed,
      ))
      (λ e. (Keeps-refl w, none e))
  where
    changed : ℕ
    changed = bit_and status irq_lemo_in_chg

    grown :
        (v : ℕ)
        → Grows w.sc
            (record w.sc { lemo_status = bit_or w.sc.lemo_status changed; last_opt_csr = v })
    grown v = record {
      doorbells = ⊑-refl w.sc.doorbell;
      lemos = ⊑-or_left w.sc.lemo_status changed;
      events = ⊑-refl w.sc.got_irqs;
      commands = ⊑-refl w.sc.command;
    }

    none : has status irq_lemo_in_chg ≡ false → changed ⊑ w.sc.lemo_status
    none e i = omega (arith, ap (bit_at i) (has-false status irq_lemo_in_chg e), bit_at-zero i)
