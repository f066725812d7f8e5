-- ===== src/Irq/Lossless.antt =====
-- sis1100_intr (sis3100/sis1100-2.13/src/sis1100_irq.c) loses no event.
use mdaq_midas.Common.{ℕ, Bool, not, ◌||◌, ◌==◌, bit_and, bit_or}
use mdaq_midas.Bus.{
  Device, World, when, modify, Port, get, put, log, signal, value_at, now, wake_local, plx_intcsr,
  sr,
}
use mdaq_midas.Bus.Spec.{Returns-then, Returns, Returns-weaken}
use mdaq_midas.Irq.Keeps.{
  ◌⊑◌, ⊑-refl, ⊑-trans, ⊑-or_left, Grows, Grows-refl, Keeps, Keeps-refl, Keeps-trans, Keeps-then,
  Recorded-Grows, if-Returns, when-Returns,
}
use mdaq_midas.Irq.Intr.{
  has, handled_irqs, irq_lemo_in_chg, on_doorbell, on_dma0, on_dma1, on_synch, on_mbx0, on_lemo,
  on_local, local_irqs, ack_local, ack_rest, ack_end, got, wake, serve, sis1100_intr,
}
use mdaq_midas.Irq.Branches.{
  Grows-got, on_doorbell-Keeps, on_dma0-Keeps, on_dma1-Keeps, on_synch-Keeps, on_mbx0-Keeps,
  on_lemo-Keeps,
}

when-got-Keeps :
    (c : Bool) (m : ℕ) (d : Device) (w : World)
    → Returns (λ _ w'. Keeps w w') (when c (modify (got m)) d w)
when-got-Keeps c m d w =
    when-Returns (λ _ w'. Keeps w w') c (modify (got m)) d w
      (λ _. record {
        grows = Grows-got m w.sc;
        recorded = λ r. Recorded-Grows w.trace (Grows-got m w.sc) r;
      })
      (λ _. Keeps-refl w)

-- The acknowledgement of the status at the end: its LEMO changes have been recorded on the way.
acknowledged :
    (status : ℕ) (w w' : World)
    → Keeps w w'
    → bit_and status irq_lemo_in_chg ⊑ w'.sc.lemo_status
    → Keeps w (log (put sr status) w')
acknowledged status w w' k l = record { grows = k.grows; recorded = λ r. (l, k.recorded r) }

Keeps-get : (w : World) (p : Port) (v : ℕ) → Keeps w (log (get p v) w)
Keeps-get w p v = record { grows = Grows-refl w.sc; recorded = λ r. r }

wake_local-Keeps :
    (c : Bool) (d : Device) (w : World)
    → Returns (λ _ w'. Keeps w w') (when c (signal wake_local) d w)
wake_local-Keeps c d w =
    when-Returns (λ _ w'. Keeps w w') c (signal wake_local) d w
      (λ _. record { grows = Grows-refl w.sc; recorded = λ r. r }) (λ _. Keeps-refl w)

wake-Keeps :
    (b : Bool) (c : ℕ) (d : Device) (w : World) → Returns (λ _ w'. Keeps w w') (when b (wake c) d w)
wake-Keeps b c d w =
    when-Returns (λ _ w'. Keeps w w') b (wake c) d w
      (λ _. record { grows = grown; recorded = λ r. Recorded-Grows w.trace grown r })
      (λ _. Keeps-refl w)
  where
    grown : Grows w.sc (record w.sc { command = bit_or w.sc.command c })
    grown = record {
      doorbells = ⊑-refl w.sc.doorbell;
      lemos = ⊑-refl w.sc.lemo_status;
      events = ⊑-refl w.sc.got_irqs;
      commands = ⊑-or_left w.sc.command c;
    }

on_local-Keeps :
    (intcsr : ℕ) (d : Device) (w : World) → Returns (λ _ w'. Keeps w w') (on_local intcsr d w)
on_local-Keeps intcsr d w =
    if-Returns (λ _ w'. Keeps w w') (has intcsr 0x8000) _ _ d w (λ _. local) (λ _. Keeps-refl w)
  where
    status : ℕ
    status = value_at d w.trace sr

    w0 : World
    w0 = log (get sr status) w

    finish :
        (down mbx lemo : ℕ) (w4 : World)
        → Keeps w w4
        → bit_and status irq_lemo_in_chg ⊑ w4.sc.lemo_status
        → Returns (λ _ w'. Keeps w w') (ack_local status down mbx lemo d w4)
    finish down mbx lemo w4 k l =
        Returns-then (λ _ w'. Keeps w4 w') (λ _ w'. Keeps w w')
          (when (has status 0x4000) (modify (got 4)) d w4)
          (λ _ w5. ack_rest status down mbx lemo d w5) (when-got-Keeps (has status 0x4000) 4 d w4)
          λ _ w5 k5.
            Returns-then (λ _ w'. Keeps w5 w') (λ _ w'. Keeps w w')
              (when (has status 0x8000) (modify (got 64)) d w5)
              (λ _ w6. ack_end status down mbx lemo d w6)
              (when-got-Keeps (has status 0x8000) 64 d w5)
              λ _ w6 k6.
                acknowledged status w w6 (Keeps-trans k (Keeps-trans k5 k6))
                  (⊑-trans _ _ _ l (Keeps-trans k5 k6).grows.lemos)

    local : Returns (λ _ w'. Keeps w w') (local_irqs d w)
    local =
        Keeps-then w (on_synch status d w0) _ w0 (Keeps-get w sr status)
          (on_synch-Keeps status d w0)
          λ down w1 k1.
            Keeps-then w (when (has status 0x200) (modify (got 8)) d w1) _ w1 k1
              (when-got-Keeps (has status 0x200) 8 d w1)
              λ _ w2 k2.
                Keeps-then w (on_mbx0 status d w2) _ w2 k2 (on_mbx0-Keeps status d w2) λ mbx w3 k3.
                  Returns-then
                    (λ _ w'. Keeps w3 w' × (bit_and status irq_lemo_in_chg ⊑ w'.sc.lemo_status))
                    (λ _ w'. Keeps w w') (on_lemo status d w3) _ (on_lemo-Keeps status d w3)
                    λ lemo w4 h. finish down mbx lemo w4 (Keeps-trans k3 h.0) h.1

serve-Keeps :
    (intcsr : ℕ) (d : Device) (w : World) → Returns (λ _ w'. Keeps w w') (serve intcsr d w)
unfolding serve
serve-Keeps intcsr d w =
    Keeps-then w (on_doorbell intcsr t d w0) _ w0 (Keeps-get w now t)
      (on_doorbell-Keeps intcsr t d w0)
      λ bell w1 k1.
        Keeps-then w (on_dma0 intcsr d w1) _ w1 k1 (on_dma0-Keeps intcsr d w1) λ dma0 w2 k2.
          Keeps-then w (on_dma1 intcsr d w2) _ w2 k2 (on_dma1-Keeps intcsr d w2) λ dma1 w3 k3.
            Keeps-then w (on_local intcsr d w3) _ w3 k3 (on_local-Keeps intcsr d w3) λ local w4 k4.
              Keeps-then w (when (dma0 || dma1 || local.wakeup_local) (signal wake_local) d w4) _ w4
                k4 (wake_local-Keeps (dma0 || dma1 || local.wakeup_local) d w4)
                λ _ w5 k5.
                  let c = bit_or bell local.handler_command in
                  Keeps-then w (when (not (c == 0)) (wake c) d w5) _ w5 k5
                    (wake-Keeps (not (c == 0)) c d w5) λ _ w6 k6. k6
  where
    t : ℕ
    t = value_at d w.trace now

    w0 : World
    w0 = log (get now t) w

-- sis1100_intr always returns, and loses no event: the doorbells, LEMO changes, reasons to wake the
-- waiting process and commands to the thread that were pending still are, and if every doorbell and
-- LEMO change that had been acknowledged at the hardware was recorded in the softc, then so is every
-- one that has been acknowledged in the end.
pub intr-Keeps : (d : Device) (w : World) → Returns (λ _ w'. Keeps w w') (sis1100_intr d w)
unfolding sis1100_intr
intr-Keeps d w =
    if-Returns (λ _ w'. Keeps w w') (has intcsr handled_irqs) (serve intcsr) _ d w0
      (λ _.
        Returns-weaken _ _ (serve intcsr d w0) (serve-Keeps intcsr d w0)
          λ _ w' k. Keeps-trans (Keeps-get w plx_intcsr intcsr) k)
      (λ _. Keeps-get w plx_intcsr intcsr)
  where
    intcsr : ℕ
    intcsr = value_at d w.trace plx_intcsr

    w0 : World
    w0 = log (get plx_intcsr intcsr) w
