-- ===== src/Irq/Intr.antt =====
-- The interrupt routine sis1100_intr of sis3100/sis1100-2.13/src/sis1100_irq.c, and the handlers
-- of the thread that it wakes which need no transaction over the link: sis1100_lemo_handler.c,
-- sis1100_mbx0_handler.c and sis1100_link_up_handler of sis1100_synch_handler.c. The messages to
-- the system's log are left out.
use mdaq_midas.Common.{
  ℕ, zero, suc, ◌+◌, ◌/◌, ◌%◌, bit_and, bit_or, not32, ◌==◌, Bool, true, false, not, ◌||◌,
  if◌then◌else◌,
}
use mdaq_midas.Bus.{
  M, pure, ◌>>=◌, ◌>>◌, read, write, lock, unlock, signal, gets, modify, when, Softc, hw_invalid,
  lock_doorbell, lock_intcsr, lock_lemo_status, lock_command, wake_local, wake_handler,
  start_link_timer, dma0_hook_call, now, plx_l2pdbell, plx_intcsr, sr, opt_csr, mailext,
}
use mdaq_midas.Remote.{shl32}
use mdaq_midas.Irq.Control.{disable_irq, sis1100_mbx0_irq}

-- `if (a & m)`
abbrev pub has : ℕ → ℕ → Bool
has a m = not (bit_and a m == 0)

-- The bits of INTCSR.
abbrev pub plxirq_doorbell_active : ℕ
plxirq_doorbell_active = 0x2000

abbrev plxirq_local_active : ℕ
plxirq_local_active = 0x8000

abbrev pub plxirq_dma0 : ℕ
plxirq_dma0 = 0x40000

abbrev plxirq_dma1 : ℕ
plxirq_dma1 = 0x80000

abbrev plxirq_dma0_active : ℕ
plxirq_dma0_active = 0x200000

abbrev plxirq_dma1_active : ℕ
plxirq_dma1_active = 0x400000

abbrev pub handled_irqs : ℕ
handled_irqs = 0x60a000

-- enum handlercomm
abbrev pub handlercomm_doorbell : ℕ
handlercomm_doorbell = 1

abbrev pub handlercomm_lemo : ℕ
handlercomm_lemo = 4

abbrev handlercomm_mbx0 : ℕ
handlercomm_mbx0 = 8

abbrev handlercomm_up : ℕ
handlercomm_up = 16

abbrev handlercomm_down : ℕ
handlercomm_down = 32

abbrev pub irq_lemo_in_chg : ℕ
irq_lemo_in_chg = 0x3000

-- The loop over the digits of the doorbell; a u_int32_t is 0 after 32 steps.
unfoldable pub stamp : ℕ → ℕ → ℕ → ℕ → (ℕ → ℕ) → ℕ → ℕ
stamp zero i help t times = times
stamp (suc fuel) i help t times =
    if help == 0
    then times
    else stamp fuel (i + 1) (help / 2) t
        (if help % 2 == 1 then (λ j. if j == i then t else times j) else times)

-- if (intcsr&plxirq_doorbell_active) ...; the result is the part of handler_command.
abbrev pub on_doorbell : ℕ → ℕ → M ℕ
on_doorbell intcsr t =
    if has intcsr plxirq_doorbell_active
    then (do
      help ← read plx_l2pdbell
      write plx_l2pdbell help
      lock lock_doorbell
      modify (λ sc. record sc { doorbell = bit_or sc.doorbell help })
      unlock lock_doorbell
      modify (λ sc. record sc { irqtimes = stamp 32 0 help t sc.irqtimes })
      pure handlercomm_doorbell)
    else pure 0

abbrev pub got : ℕ → Softc → Softc
got m sc = record sc { got_irqs = bit_or sc.got_irqs m }

abbrev clear_dma : ℕ → M (Unit {0})
clear_dma v = do lock lock_intcsr; write plx_intcsr v; unlock lock_intcsr

-- `if (sc->plxirq_dma0_hook!=0)`
abbrev pub hook_or_got : Bool → M Bool
hook_or_got hook = do
  when hook (signal dma0_hook_call)
  when (not hook) (modify (got 1))
  pure (not hook)

-- if (intcsr&plxirq_dma0_active) ...; the result is the part of wakeup_local.
abbrev pub on_dma0 : ℕ → M Bool
on_dma0 intcsr =
    if has intcsr plxirq_dma0_active
    then (do
      clear_dma (bit_and intcsr (not32 plxirq_dma0))
      hook ← gets (λ sc. sc.dma0_hook)
      hook_or_got hook)
    else pure false

abbrev pub on_dma1 : ℕ → M Bool
on_dma1 intcsr =
    if has intcsr plxirq_dma1_active
    then (do clear_dma (bit_and intcsr (not32 plxirq_dma1)); modify (got 2); pure true)
    else pure false

-- if (status&irq_synch_chg) ...
abbrev pub on_synch : ℕ → M ℕ
on_synch status =
    if has status 0x10
    then (do
      disable_irq 0 0xc110
      modify (got 32)
      when (not (bit_and status 3 == 3)) (modify (λ sc. record sc { remote_hw = hw_invalid }))
      signal start_link_timer
      pure (if bit_and status 3 == 3 then 0 else handlercomm_down))
    else pure 0

-- if (status&irq_mbx0) ...
abbrev pub on_mbx0 : ℕ → M ℕ
on_mbx0 status =
    if has status 0x400
    then (do v ← read (mailext 0); modify (λ sc. record sc { mbx0 = v }); pure handlercomm_mbx0)
    else pure 0

-- if (status&irq_lemo_in_chg) ...
abbrev pub on_lemo : ℕ → M ℕ
on_lemo status =
    if has status irq_lemo_in_chg
    then (do
      lock lock_lemo_status
      modify
          (λ sc. record sc { lemo_status = bit_or sc.lemo_status (bit_and status irq_lemo_in_chg) })
      unlock lock_lemo_status
      v ← read opt_csr
      modify (λ sc. record sc { last_opt_csr = v })
      pure handlercomm_lemo)
    else pure 0

-- The result: wakeup_local and the part of handler_command.
pub record Local : Type 0 where
  pub wakeup_local : Bool
  pub handler_command : ℕ

-- The end of what is done for local interrupts, in three parts.
abbrev pub ack_end : ℕ → ℕ → ℕ → ℕ → M Local
ack_end status down mbx lemo = do
  write sr status
  pure record {
    wakeup_local = has status 0x10 || has status 0x200 || has status 0x4000 || has status 0x8000;
    handler_command = bit_or down (bit_or mbx lemo);
  }

abbrev pub ack_rest : ℕ → ℕ → ℕ → ℕ → M Local
ack_rest status down mbx lemo = do
  when (has status 0x8000) (modify (got 64))
  ack_end status down mbx lemo

abbrev pub ack_local : ℕ → ℕ → ℕ → ℕ → M Local
ack_local status down mbx lemo = do
  when (has status 0x4000) (modify (got 4))
  ack_rest status down mbx lemo

-- What is done for local interrupts.
abbrev pub local_irqs : M Local
local_irqs = do
  status ← read sr
  down ← on_synch status
  when (has status 0x200) (modify (got 8))
  mbx ← on_mbx0 status
  lemo ← on_lemo status
  ack_local status down mbx lemo

-- if (local) ...
abbrev pub on_local : ℕ → M Local
on_local intcsr =
    if has intcsr plxirq_local_active
    then local_irqs
    else pure record { wakeup_local = false; handler_command = 0 }

-- The tail of the routine, and sis1100_link_up_handler.
abbrev pub wake : ℕ → M (Unit {0})
wake c = do
  lock lock_command
  modify (λ sc. record sc { command = bit_or sc.command c })
  unlock lock_command
  signal wake_handler

-- What sis1100_intr does when one of its IRQs is there.
unfoldable pub serve : ℕ → M Bool
serve intcsr = do
  t ← read now
  bell ← on_doorbell intcsr t
  dma0 ← on_dma0 intcsr
  dma1 ← on_dma1 intcsr
  local ← on_local intcsr
  when (dma0 || dma1 || local.wakeup_local) (signal wake_local)
  when (not (bit_or bell local.handler_command == 0)) (wake (bit_or bell local.handler_command))
  pure true

-- sis1100_intr; the result is true for IRQ_HANDLED and false for IRQ_NONE.
unfoldable pub sis1100_intr : M Bool
sis1100_intr = do
  intcsr ← read plx_intcsr
  if has intcsr handled_irqs then serve intcsr else pure false

-- sis1100_link_up_handler
abbrev pub link_up_handler : M (Unit {0})
link_up_handler = wake handlercomm_up

-- sis1100_lemo_handler; 30000 is decimal in the source.
unfoldable pub lemo_handler : M ℕ
lemo_handler = do
  lock lock_lemo_status
  new_irqs ← gets (λ sc. bit_and (bit_and (shl32 sc.lemo_status 4) 30000) (not32 sc.pending_irqs))
  modify (λ sc. record sc { lemo_status = 0 })
  unlock lock_lemo_status
  pure new_irqs

-- sis1100_mbox0_handler
abbrev pub mbox0_handler : M ℕ
mbox0_handler = pure sis1100_mbx0_irq
