-- ===== src/Irq/Lemo.antt =====
-- What sis1100_lemo_handler (sis3100/sis1100-2.13/src/sis1100_lemo_handler.c) reports. The front
-- panel's IRQs are SIS1100_FRONT_IRQS, 0x30000, the digits 16 and 17.
use mdaq_midas.Common.{ℕ, ◌≡◌, refl, arith, bit_and, not32, bit_at, bit_at-and}
use mdaq_midas.Bus.{Device, World}
use mdaq_midas.Bus.Spec.{Returns}
use mdaq_midas.Remote.{shl32}
use mdaq_midas.Irq.Intr.{lemo_handler}

masked : (i a b c : ℕ) → bit_at i b ≡ 0 → bit_at i (bit_and (bit_and a b) c) ≡ 0
masked i a b c e = omega (arith, bit_at-and i (bit_and a b) c, bit_at-and i a b)

-- Whatever changes at the LEMO inputs have been recorded, sis1100_lemo_handler reports neither of the
-- front panel's two IRQs as new, but it always clears the record: every such change is lost.
pub lemo_handler-loses :
    (d : Device) (w : World)
    → Returns
        (λ new_irqs w'.
          (bit_at 16 new_irqs ≡ 0) × (bit_at 17 new_irqs ≡ 0) × (w'.sc.lemo_status ≡ 0))
        (lemo_handler d w)
unfolding lemo_handler bit_at
lemo_handler-loses d w = (
  masked 16 (shl32 w.sc.lemo_status 4) 30000 (not32 w.sc.pending_irqs) refl,
  masked 17 (shl32 w.sc.lemo_status 4) 30000 (not32 w.sc.pending_irqs) refl,
  refl,
)
