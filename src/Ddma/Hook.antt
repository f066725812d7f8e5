-- ===== src/Ddma/Hook.antt =====
-- start_dma, plxirq_dma0_hook and sis1100_ddma_mark of
-- sis3100/sis1100-2.13/src/sis1100_ddma_startstop.c. What is done under the spinlock in one piece is
-- one change of the state; the hook and the marking of a block are each two such pieces, between
-- which another processor may run.
use mdaq_midas.Common.{
  ℕ, ◌+◌, ◌%◌, ◌^◌, bit_or, leb, ◌==◌, Bool, true, false, not, ◌&&◌, if◌then◌else◌, some,
}
use mdaq_midas.Bus.{
  M, pure, ◌>>=◌, ◌>>◌, read, write, lock, unlock, signal, gets, modify, when, Softc, BlockStatus,
  block_free, block_dma, block_full, block_user, is_running, DemandDma, lock_ddma, lock_intcsr,
  lock_command, wake_handler, plx_intcsr, plx_dmacsr, plx_dmadpr0,
}
use mdaq_midas.Irq.{set_block, plxirq_dma0}

abbrev pub eperm : ℕ
eperm = 1

abbrev pub esrch : ℕ
esrch = 3

abbrev pub einval : ℕ
einval = 22

abbrev pub is_free : BlockStatus → Bool
is_free block_free = true
is_free _ = false

abbrev pub is_user : BlockStatus → Bool
is_user block_user = true
is_user _ = false

-- The block after block n in a ring of `num` blocks.
abbrev pub after : ℕ → ℕ → ℕ
after num n = if leb num (n + 1) then 0 else n + 1

abbrev pub set_dma : (DemandDma → DemandDma) → Softc → Softc
set_dma f sc = record sc { demand_dma = f sc.demand_dma }

-- The first piece of start_dma.
abbrev pub occupy : ℕ → DemandDma → DemandDma
occupy n dma =
    set_block n (record (dma.block n) { status = block_dma; seq_write_start = dma.debug_sequence })
      dma

-- start_dma
unfoldable pub start_dma : ℕ → M (Unit {0})
start_dma n = do
  lock lock_ddma
  modify (set_dma (occupy n))
  unlock lock_ddma
  write plx_dmacsr 8
  lock lock_intcsr
  intcsr ← read plx_intcsr
  write plx_intcsr (bit_or intcsr plxirq_dma0)
  unlock lock_intcsr
  dmadpr0 ← gets (λ sc. (sc.demand_dma.block n).dmadpr0)
  write plx_dmadpr0 (bit_or dmadpr0 9)
  write plx_dmacsr 3

-- The first piece of the hook: the block that was written is full, and the next one is to come.
abbrev pub complete : ℕ → DemandDma → DemandDma
complete time dma =
    let n = dma.writing_block in
    let b = record (dma.block n) {
      status = block_full;
      time = time;
      seq_write_end = dma.debug_sequence;
    } in
    record (set_block n b dma) {
      debug_sequence = (dma.debug_sequence + 1) % 2 ^ 32;
      writing_block = after dma.numblocks n;
    }

-- The result is next_block and `used`.
unfoldable pub hook_fill : ℕ → M (ℕ × Bool)
hook_fill time = do
  lock lock_ddma
  modify (set_dma (complete time))
  next ← gets (λ sc. sc.demand_dma.writing_block)
  used ← gets (λ sc. not (is_free (sc.demand_dma.block next).status))
  unlock lock_ddma
  pure (next, used)

abbrev pub block_ring : DemandDma → DemandDma
block_ring dma = record dma { is_blocked = true }

-- The second piece of the hook.
unfoldable pub hook_go : ℕ → Bool → M (Unit {0})
unfolding start_dma
hook_go next used d w =
    if used
    then (do lock lock_ddma; modify (set_dma block_ring); unlock lock_ddma) d w
    else start_dma next d w

-- plxirq_dma0_hook
unfoldable pub dma0_hook : ℕ → M (Unit {0})
unfolding hook_fill hook_go
dma0_hook time = do
  (next, used) ← hook_fill time
  hook_go next used
  lock lock_command
  modify (λ sc. record sc { command = bit_or sc.command 64 })
  unlock lock_command
  signal wake_handler

-- Whether freeing block n wakes a ring that waits for it.
abbrev pub awaited : ℕ → DemandDma → Bool
awaited n dma = dma.is_blocked && n == dma.writing_block

-- The first piece of sis1100_ddma_mark.
abbrev pub free_block : ℕ → DemandDma → DemandDma
free_block n dma = record (set_block n (record (dma.block n) { status = block_free }) dma) {
  is_blocked = dma.is_blocked && not (awaited n dma);
}

-- The result is the code and whether a block is to be restarted.
unfoldable pub mark_free : ℕ → M (ℕ × Bool)
mark_free n = do
  lock lock_ddma
  λ d w.
      if is_user (w.sc.demand_dma.block n).status
      then (do
        restart ← gets (λ sc. awaited n sc.demand_dma)
        modify (set_dma (free_block n))
        unlock lock_ddma
        pure (0, restart))
          d w
      else (do unlock lock_ddma; pure (einval, false)) d w

-- sis1100_ddma_mark, for the file `self`
unfoldable pub ddma_mark : ℕ → ℕ → M ℕ
unfolding mark_free start_dma
ddma_mark self n d w =
    let dma = w.sc.demand_dma in
    if not (dma.owner == self)
    then some (eperm, w)
    else if not (is_running dma.status)
    then some (esrch, w)
    else if leb dma.numblocks n
    then some (einval, w)
    else (do (res, restart) ← mark_free n; when restart (start_dma n); pure res) d w
