-- ===== src/Setup/Thread.antt =====
-- sis1100_irq_thread.c (sis3100/sis1100-2.13/src), with the handlers of zellvd_rem_irq.c and
-- pandapixel_rem_irq.c. The messages to the system's log are left out.
use mdaq_midas.Common.{
  ℕ, zero, suc, ◌^◌, bit_and, bit_or, not32, ltb, ◌==◌, ◌&&◌, ◌||◌, Bool, not, if◌then◌else◌, List,
  [], ◌∷◌, Option, none, some,
}
use mdaq_midas.Bus.{
  M, pure, ◌>>=◌, ◌>>◌, lock, unlock, signal, gets, modify, when, skip, Softc, Fdata, HwType,
  hw_vme, hw_camac, hw_lvd, hw_pandapixel, hw_eq, sem_irqinfo, sem_fdata, lock_doorbell,
  lock_command, kill, wake_remote,
}
use mdaq_midas.Irq.{
  has, sis3100rem_irq_handler, sis5100rem_irq_handler, lemo_handler, mbox0_handler, zellvd_ddma_irq,
}
use mdaq_midas.Setup.Init.{synch_handler}

-- zellvd_rem_irq_handler and pandapixel_rem_irq_handler
abbrev pub new_doorbells : ℕ → M ℕ
new_doorbells doorbell = gets (λ sc. bit_and doorbell (not32 sc.pending_irqs))

-- sis1100_ddma_handler
abbrev pub ddma_handler : M ℕ
ddma_handler = pure zellvd_ddma_irq

-- The switch over sc->remote_hw.
unfoldable pub far_handler : HwType → ℕ → M ℕ
far_handler hw_vme doorbell = sis3100rem_irq_handler doorbell
far_handler hw_camac doorbell = sis5100rem_irq_handler doorbell
far_handler hw_lvd doorbell = new_doorbells doorbell
far_handler hw_pandapixel doorbell = new_doorbells doorbell
far_handler _ doorbell = pure 0

-- `if (command&handlercomm_doorbell)`
unfoldable pub serve_doorbell : M ℕ
unfolding far_handler
serve_doorbell = do
  lock lock_doorbell
  doorbell ← gets (λ sc. sc.doorbell)
  modify (λ sc. record sc { doorbell = 0 })
  unlock lock_doorbell
  hw ← gets (λ sc. sc.remote_hw)
  far_handler hw doorbell

-- `if (command&m) new_irqs|=...`
unfoldable pub if_command : ℕ → ℕ → M ℕ → M ℕ
if_command command m handler d w = if has command m then handler d w else some (0, w)

-- Whether a process is to be informed.
abbrev pub concerned : ℕ → HwType → Fdata → Bool
concerned new_irqs hw fd =
    ltb 0 fd.sig
    && ltb fd.sig (2 ^ 31)
    && (not (bit_and new_irqs fd.owned_irqs == 0) || not (hw_eq fd.old_remote_hw hw))

-- The loop over sc->fdata.
unfoldable pub inform : ℕ → HwType → List (Option Fdata) → M (Unit {0})
inform new_irqs hw [] = skip
inform new_irqs hw (none ∷ l) = inform new_irqs hw l
inform new_irqs hw (some fd ∷ l) = do
  when (concerned new_irqs hw fd) (signal (kill fd.pid fd.sig))
  inform new_irqs hw l

abbrev pub add_pending : ℕ → Softc → Softc
add_pending new_irqs sc = record sc { pending_irqs = bit_or sc.pending_irqs new_irqs }

-- What all handlers report.
unfoldable pub handle : ℕ → M ℕ
unfolding if_command
handle command = do
  far ← if_command command 1 serve_doorbell
  lemo ← if_command command 4 lemo_handler
  mbx ← if_command command 8 mbox0_handler
  up ← if_command command 16 synch_handler
  ddma ← if_command command 64 ddma_handler
  pure (bit_or (bit_or (bit_or (bit_or far lemo) mbx) up) ddma)

-- _sis1100_irq_thread
unfoldable pub irq_thread_pass : ℕ → M (Unit {0})
irq_thread_pass command = do
  lock sem_irqinfo
  new_irqs ← handle command
  modify (add_pending new_irqs)
  unlock sem_irqinfo
  lock sem_fdata
  hw ← gets (λ sc. sc.remote_hw)
  files ← gets (λ sc. sc.fdata)
  inform new_irqs hw files
  unlock sem_fdata
  signal wake_remote

-- One round of sis1100_irq_thread, when it has been woken up and is not to stop.
unfoldable pub thread_round : M (Unit {0})
thread_round = do
  lock lock_command
  command ← gets (λ sc. sc.command)
  modify (λ sc. record sc { command = 0 })
  unlock lock_command
  irq_thread_pass command

-- sis1100_irq_thread for n rounds, before kthread_should_stop says that it is to stop.
unfoldable pub irq_thread : ℕ → M (Unit {0})
unfolding thread_round
irq_thread zero = skip
irq_thread (suc n) = do thread_round; irq_thread n
