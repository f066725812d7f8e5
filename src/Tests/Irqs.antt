-- ===== src/Tests/Irqs.antt =====
-- Interrupts on the sample board.
use mdaq_midas.Common.{
  ◌==◌, ◌<◌, ◌⊎◌, ◌≤◌, ℕ, zero, suc, ◌≡◌, ◌≢◌, refl, ap, sym, ◌∙◌, some, false, bit_at, bit_at-zero,
  bit_at-and, bit_and, bit_or, not32, arith,
}
use mathlib.Core.Option.{some-injective}
use mathlib.Core.Path.{subst}
use mdaq_midas.Bus.{Softc, Fdata}
use mdaq_midas.Bus.Spec.{Returns, held, Disciplined}
use mdaq_midas.Irq.{
  IrqCtl, irq_ctl, IrqGet, fdata_at, irq_ack, sis3100rem_get_vector, sis3100rem_irq_handler,
  sis3100rem_enable_irqs, sis3100rem_disable_irqs, sis3100rem_irq_ack, sis5100rem_irq_handler,
  sis5100rem_enable_irqs, sis5100rem_disable_irqs, sis5100rem_irq_ack, reserve_irq, release_irq,
  slot, lemo_handler, sis1100_intr,
}
use mdaq_midas.Irq.Exclusive.{Exclusive, reserve_irq-Exclusive, release_irq-Exclusive}
use mdaq_midas.Irq.Lossless.{intr-Keeps}
use mdaq_midas.Irq.Keeps.{Keeps}
use mdaq_midas.Irq.Lemo.{lemo_handler-loses}
use mdaq_midas.Irq.Highest.{Unreported, Reported, get_vector-highest}
use mdaq_midas.Irq.Discipline.{Safe, far-Safe}
use mdaq_midas.Irq.Ctl.{Sound, irq_ctl-Sound}
use mdaq_midas.Irq.Ack.{irq_ack-spares}
use mdaq_midas.Tests.Board.{alice, bob, board, start, silent, noisy, silent-Responsive}

-- Alice, in place 0, asks for an IRQ that nobody has, and gives it back with others of hers.
apart : (b : ℕ) → bit_at b 0x0e ≡ 1 → bit_at b 0x30 ≡ 1 → ⊥
apart b x y = omega (arith, bit_at-and b 0x0e 0x30, bit_at-zero b, x, y)

owned :
    (b : ℕ) (h k : Fdata) → some k ≡ some h → bit_at b h.owned_irqs ≡ 1 → bit_at b k.owned_irqs ≡ 1
owned b h k e z = subst (λ f. bit_at b f.owned_irqs ≡ 1) (some-injective h k (sym e)) z

board-Exclusive : Exclusive board.fdata
board-Exclusive b zero zero f g p q x y = ap (λ f. f.pid) (some-injective f g (sym p ∙ q))
board-Exclusive b zero (suc zero) f g p q x y = cc
board-Exclusive b zero (suc (suc zero)) f g p q x y =
    absurd (apart b (owned b f alice p x) (owned b g bob q y))
board-Exclusive b zero (suc (suc (suc j))) f g p q x y = cc
board-Exclusive b (suc zero) j f g p q x y = cc
board-Exclusive b (suc (suc zero)) zero f g p q x y =
    absurd (apart b (owned b g alice q y) (owned b f bob p x))
board-Exclusive b (suc (suc zero)) (suc zero) f g p q x y = cc
board-Exclusive b (suc (suc zero)) (suc (suc zero)) f g p q x y =
    ap (λ f. f.pid) (some-injective f g (sym p ∙ q))
board-Exclusive b (suc (suc zero)) (suc (suc (suc j))) f g p q x y = cc
board-Exclusive b (suc (suc (suc i))) j f g p q x y = cc

reserve_example :
    Returns
      (λ res w'.
        Exclusive w'.sc.fdata
        × (res ≡ 0 → slot w'.sc.fdata 0 ≡ some (record alice { owned_irqs = bit_or 0x0e 0x40 }))
        × (res ≢ 0 → w'.sc.fdata ≡ board.fdata))
      (reserve_irq 0 0x40 silent start)
reserve_example = reserve_irq-Exclusive 0 0x40 alice silent start refl board-Exclusive

release_example :
    Returns
      (λ _ w'.
        Exclusive w'.sc.fdata
        × (slot w'.sc.fdata 0 ≡ some (record alice { owned_irqs = bit_and 0x0e (not32 0x06) })))
      (release_irq 0 0x06 silent start)
release_example = release_irq-Exclusive 0 0x06 alice silent start refl board-Exclusive

-- An interrupt with every reason at once.
interrupt_example : Returns (λ _ w'. Keeps start w') (sis1100_intr noisy start)
interrupt_example = intr-Keeps noisy start

lemo_example :
    Returns
      (λ new_irqs w'. (bit_at 16 new_irqs ≡ 0) × (bit_at 17 new_irqs ≡ 0) × (w'.sc.lemo_status ≡ 0))
      (lemo_handler silent start)
lemo_example = lemo_handler-loses silent start

far_example :
    Safe silent (sis3100rem_irq_handler 0x1a)
    × Safe silent (sis3100rem_enable_irqs 0x1a)
    × Safe silent (sis3100rem_disable_irqs 0x1a)
    × Safe silent (sis3100rem_irq_ack 0x1a)
    × Safe silent (sis5100rem_irq_handler 0x1a)
    × Safe silent (sis5100rem_enable_irqs 0x1a)
    × Safe silent (sis5100rem_disable_irqs 0x1a)
    × Safe silent (sis5100rem_irq_ack 0x1a)
far_example = far-Safe silent silent-Responsive 0x1a

ack_example :
    Returns
      (λ res w'.
        (res ≡ 0)
        × (w'.sc.fdata ≡ board.fdata)
        × (held w'.trace ≡ false)
        × Disciplined w'.trace
        × ((i : ℕ)
            → i < 32
            → bit_at i (bit_and (fdata_at board 0).owned_irqs 0x06) ≡ 0
            → bit_at i board.pending_irqs ≤ bit_at i w'.sc.pending_irqs))
      (irq_ack 0 0x06 silent start)
ack_example = irq_ack-spares 0 0x06 silent start silent-Responsive refl tt

-- A request for the vectors, and a board on which level 3 has one.
abbrev request : IrqGet
request = record {
  irq_mask = 0xfe;
  remote_status = 0;
  opt_status = 0;
  mbx0 = 0;
  irqs = 0;
  level = 0;
  vector = 0;
  irq_time = 0;
}

abbrev vectors : Softc
vectors = record board { irq_vects = λ i. record { time = 7; vector = 0x55; valid = i == 3 } }

vector_example :
    Unreported 0x28 request vectors (sis3100rem_get_vector 0x28 request vectors)
    ⊎ Reported 0x28 request vectors (sis3100rem_get_vector 0x28 request vectors)
vector_example = get_vector-highest 0x28 request vectors

-- Alice asks for one of Bob's IRQs.
abbrev greedy : IrqCtl
greedy = record { irq_mask = 0x10; signal = 12; auto_mask = 0 }

ctl_example :
    Returns
      (λ res w'. Sound w' × (res ≢ 0 → w'.sc.fdata ≡ board.fdata))
      (irq_ctl 0 greedy silent start)
ctl_example =
    irq_ctl-Sound 0 greedy alice silent start silent-Responsive refl
      (record { exclusive = board-Exclusive; free = refl; disciplined = tt })
