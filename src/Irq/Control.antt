-- ===== src/Irq/Control.antt =====
-- The requests about IRQs of sis3100/sis1100-2.13/src/sis1100_irq_handler.c, sis1100_poll.c, and
-- sis1100_enable_irq and sis1100_disable_irq of sis1100_irq.c. A time is one number.
use mdaq_midas.Common.{
  ℕ, ◌+◌, ◌/◌, ◌^◌, bit_and, bit_or, not32, leb, ◌==◌, Bool, not, ◌||◌, if◌then◌else◌, some,
}
use mdaq_midas.Bus.{
  M, pure, ◌>>=◌, ◌>>◌, read, write, lock, unlock, gets, modify, when, skip, Softc, Fdata, HwType,
  hw_vme, hw_camac, hw_lvd, hw_eq, is_running, is_full, DemandDma, sem_irqinfo, lock_intcsr,
  lock_ddma, plx_intcsr, sr, cr,
}
use mdaq_midas.Remote.{shl32}
use mdaq_midas.Irq.Owner.{fdata_at, set_fdata, reserve_irq, release_irq}
use mdaq_midas.Irq.Far.{
  if_any, sis3100rem_irq_ack, sis5100rem_irq_ack, sis3100rem_enable_irqs, sis5100rem_enable_irqs,
  sis3100rem_disable_irqs, sis5100rem_disable_irqs,
}

abbrev pub all_irq : ℕ
all_irq = 0xfff0

abbrev pub sis1100_front_irqs : ℕ
sis1100_front_irqs = 0x30000

abbrev pub sis1100_mbx0_irq : ℕ
sis1100_mbx0_irq = 0x100000

abbrev pub zellvd_ddma_irq : ℕ
zellvd_ddma_irq = 0x40000000

-- sis1100_enable_irq
unfoldable pub enable_irq : ℕ → ℕ → M (Unit {0})
enable_irq plx_mask sis_mask = do
  if_any plx_mask do
    lock lock_intcsr
    v ← read plx_intcsr
    write plx_intcsr (bit_or v plx_mask)
    unlock lock_intcsr
  if_any sis_mask do write sr (bit_and sis_mask all_irq); write cr (bit_and sis_mask all_irq)

-- sis1100_disable_irq
unfoldable pub disable_irq : ℕ → ℕ → M (Unit {0})
disable_irq plx_mask sis_mask = do
  if_any plx_mask do
    lock lock_intcsr
    v ← read plx_intcsr
    write plx_intcsr (bit_and v (not32 plx_mask))
    unlock lock_intcsr
  if_any sis_mask (write cr (shl32 (bit_and sis_mask all_irq) 16))

-- The block after the one that the user has, which is the next to be read.
abbrev pub next_block : DemandDma → ℕ
next_block dma = if leb dma.numblocks (dma.reading_block + 1) then 0 else dma.reading_block + 1

-- The lvd case of _sis1100_irq_ack: the IRQ stays pending while another block is full.
abbrev pub repend : Softc → Softc
repend sc =
    if is_full (sc.demand_dma.block (next_block sc.demand_dma)).status
    then record sc { pending_irqs = bit_or sc.pending_irqs zellvd_ddma_irq }
    else sc

unfoldable pub ack_far : HwType → ℕ → M (Unit {0})
ack_far hw_vme irqs = sis3100rem_irq_ack irqs
ack_far hw_camac irqs = sis5100rem_irq_ack irqs
ack_far hw_lvd irqs = do
  running ← gets (λ sc. is_running sc.demand_dma.status)
  when running do lock lock_ddma; modify repend; unlock lock_ddma
ack_far _ irqs = skip

-- _sis1100_irq_ack, which always returns 0
unfoldable pub ack_irqs : ℕ → M (Unit {0})
unfolding ack_far
ack_irqs irqs = do
  modify (λ sc. record sc { pending_irqs = bit_and sc.pending_irqs (not32 irqs) })
  hw ← gets (λ sc. sc.remote_hw)
  ack_far hw irqs

-- sis1100_irq_ack
unfoldable pub irq_ack : ℕ → ℕ → M ℕ
irq_ack self irq_mask = do
  lock sem_irqinfo
  irqs ← gets (λ sc. bit_and (bit_and (fdata_at sc self).owned_irqs irq_mask) sc.pending_irqs)
  ack_irqs irqs
  unlock sem_irqinfo
  pure 0

-- struct sis1100_irq_ctl2
pub record IrqCtl : Type 0 where
  pub irq_mask : ℕ
  pub signal : ℕ
  pub auto_mask : ℕ

unfoldable pub enable_far : HwType → ℕ → M (Unit {0})
enable_far hw_vme mask = sis3100rem_enable_irqs mask
enable_far hw_camac mask = sis5100rem_enable_irqs mask
enable_far _ mask = skip

unfoldable pub disable_far : HwType → ℕ → M (Unit {0})
disable_far hw_vme mask = sis3100rem_disable_irqs mask
disable_far hw_camac mask = sis5100rem_disable_irqs mask
disable_far _ mask = skip

-- The local IRQs that a mask of user IRQs stands for.
unfoldable pub local_mask : ℕ → ℕ
local_mask mask =
    bit_or (bit_and mask sis1100_front_irqs / 2 ^ 4)
      (if bit_and mask sis1100_mbx0_irq == 0 then 0 else 0x400)

-- The state after reserving: the signal, the link state as seen, and the IRQs acknowledged by
-- themselves.
abbrev pub subscribe : ℕ → IrqCtl → Softc → Softc
subscribe self ctl sc =
    let sc' =
      set_fdata self (λ f. record f { sig = ctl.signal; old_remote_hw = sc.remote_hw }) sc in
    record sc' {
      autoack_mask =
          bit_or (bit_and sc.autoack_mask (not32 ctl.irq_mask))
            (bit_and ctl.auto_mask ctl.irq_mask);
    }

-- sis1100_irq_ctl, when a signal is given and the IRQs have been reserved
unfoldable pub irq_ctl_enable : ℕ → IrqCtl → M ℕ
unfolding enable_far local_mask
irq_ctl_enable self ctl = do
  lock sem_irqinfo
  ack_irqs ctl.irq_mask
  unlock sem_irqinfo
  modify (subscribe self ctl)
  hw ← gets (λ sc. sc.remote_hw)
  enable_far hw ctl.irq_mask
  when (hw_eq hw hw_vme) (if_any (local_mask ctl.irq_mask) (enable_irq 0 (local_mask ctl.irq_mask)))
  pure 0

-- sis1100_irq_ctl, when a signal is given
unfoldable pub irq_ctl_on : ℕ → IrqCtl → M ℕ
irq_ctl_on self ctl = do
  res ← reserve_irq self ctl.irq_mask
  λ d w. if res == 0 then irq_ctl_enable self ctl d w else some (res, w)

-- sis1100_irq_ctl, when the IRQs are to be disabled
unfoldable pub irq_ctl_off : ℕ → IrqCtl → M ℕ
unfolding disable_far local_mask
irq_ctl_off self ctl = do
  irqs ← gets (λ sc. bit_and (fdata_at sc self).owned_irqs ctl.irq_mask)
  modify (λ sc. record sc { autoack_mask = bit_and sc.autoack_mask (not32 irqs) })
  hw ← gets (λ sc. sc.remote_hw)
  disable_far hw irqs
  when (hw_eq hw hw_vme) (if_any (local_mask irqs) (disable_irq 0 (local_mask irqs)))
  release_irq self ctl.irq_mask
  pure 0

-- sis1100_irq_ctl
unfoldable pub irq_ctl : ℕ → IrqCtl → M ℕ
unfolding irq_ctl_on irq_ctl_off
irq_ctl self ctl d w = if ctl.signal == 0 then irq_ctl_off self ctl d w else irq_ctl_on self ctl d w

-- irq_pending (sis1100_sc.h)
unfoldable pub irq_pending : Softc → Fdata → ℕ → Bool
irq_pending sc fd mask =
    not (bit_and sc.pending_irqs (bit_and fd.owned_irqs mask) == 0)
    || not (hw_eq fd.old_remote_hw sc.remote_hw)

-- sis1100_poll: POLLIN|POLLRDNORM or nothing
unfoldable pub poll_events : ℕ → Softc → ℕ
poll_events self sc =
    let fd = fdata_at sc self in if irq_pending sc fd fd.owned_irqs then 0x41 else 0
