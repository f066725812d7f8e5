-- ===== src/Ddma/Switch.antt =====
-- sis1100_ddma_start, sis1100_ddma_stop and sis1100_ddma_wait of
-- sis3100/sis1100-2.13/src/sis1100_ddma_startstop.c, and sis1100_flush_fifo of sis1100_init.c.
use mdaq_midas.Common.{
  ℕ, zero, suc, bit_or, ltb, ◌==◌, Bool, true, false, not, ◌&&◌, ◌||◌, if◌then◌else◌, some,
}
use mdaq_midas.Bus.{
  M, pure, ◌>>=◌, ◌>>◌, read, write, lock, unlock, gets, modify, skip, block_free, block_dma,
  DmaStatus, dma_invalid, dma_ready, dma_running, is_running, DemandDma, DmaBlock, mux_ddma, sr, cr,
  d0_bc, tp_special, tp_data, plx_dmacsr, plx_dmadpr0, plx_dmamode0,
}
use mdaq_midas.Irq.{has, enable_irq, disable_irq, plxirq_dma0, eintr}
use mdaq_midas.Ddma.Hook.{eperm, einval, set_dma}

abbrev pub ealready : ℕ
ealready = 114

abbrev pub eio : ℕ
eio = 5

abbrev pub is_invalid : DmaStatus → Bool
is_invalid dma_invalid = true
is_invalid _ = false

abbrev pub is_set_up : DmaStatus → Bool
is_set_up dma_ready = true
is_set_up _ = false

-- Another file uses demand DMA.
abbrev pub foreign : ℕ → DemandDma → Bool
foreign self dma = not (is_invalid dma.status) && not (dma.owner == self)

abbrev pub cleared : DmaBlock → DmaBlock
cleared b = record b {
  status = block_free;
  seq_write_start = 0xffffffff;
  seq_write_end = 0xffffffff;
  seq_signal = 0xffffffff;
  seq_free = 0xffffffff;
}

-- The ring before the first word: all blocks are free, and block 0 is given to the DMA.
abbrev pub fresh_ring : DemandDma → DemandDma
fresh_ring dma = record dma {
  block = λ i.
      let b = if ltb i dma.numblocks then cleared (dma.block i) else dma.block i in
      if i == 0 then record b { status = block_dma } else b;
  debug_sequence = 0;
  reading_block = 0xffffffff;
  is_blocked = false;
  writing_block = 0;
}

-- DMAMODE0: scatter/gather, demand mode, an interrupt at the end of a block; with dual address
-- cycles if `dac`.
abbrev dma_mode : Bool → ℕ
dma_mode dac = if dac then 0x61fc3 else 0x21fc3

-- What is done when nothing forbids it.
unfoldable pub launch : M ℕ
launch = do
  modify (set_dma fresh_ring)
  dac ← gets (λ sc. sc.using_dac)
  write plx_dmacsr 8
  write plx_dmamode0 (dma_mode dac)
  dmadpr0 ← gets (λ sc. (sc.demand_dma.block 0).dmadpr0)
  write plx_dmadpr0 (bit_or dmadpr0 9)
  modify (λ sc. record sc { dma0_hook = true })
  enable_irq plxirq_dma0 0
  write d0_bc 0
  write cr 4
  write plx_dmacsr 3
  modify (set_dma (λ dma. record dma { status = dma_running }))
  unlock mux_ddma
  pure 0

-- `mutex_unlock(&dma->mux); return res;`
unfoldable pub leave : ℕ → M ℕ
leave res = do unlock mux_ddma; pure res

-- sis1100_ddma_start, for the file `self`
unfoldable pub ddma_start : ℕ → M ℕ
unfolding launch leave
ddma_start self = do
  lock mux_ddma
  λ d w.
      let dma = w.sc.demand_dma in
      if foreign self dma
      then leave eperm d w
      else if is_running dma.status
      then leave ealready d w
      else if not (is_set_up dma.status)
      then leave einval d w
      else launch d w

-- The loop of sis1100_flush_fifo, which gives up after `left` words.
unfoldable pub drain : ℕ → ℕ → M (Unit {0})
drain zero status d w = some (tt, w)
drain (suc left) status d w =
    if has status 0x200000
    then (do v ← read tp_data; status' ← read sr; drain left status') d w
    else if has status 0x100000
    then (do v ← read tp_special; status' ← read sr; drain left status') d w
    else some (tt, w)

abbrev pub max_flush_words : ℕ
max_flush_words = 16000000

-- sis1100_flush_fifo, which always returns 0
unfoldable pub flush_fifo : M ℕ
flush_fifo = do
  write cr 2
  status ← read sr
  drain (suc max_flush_words) status
  write cr 0x20000
  pure 0

-- `while (!(DMACSR0_DMACSR1&0x10) && (c++<1000000)) {}`, with `left` rounds to go.
unfoldable pub await_done : ℕ → M (Unit {0})
await_done zero = do csr ← read plx_dmacsr; skip
await_done (suc left) = do
  csr ← read plx_dmacsr
  λ d w. if has csr 0x10 then some (tt, w) else await_done left d w

abbrev max_rounds : ℕ
max_rounds = 1000000

-- Whether the DMA has come to its end, after an abort if that is needed.
unfoldable pub abort_dma : M Bool
unfolding await_done
abort_dma = do
  csr ← read plx_dmacsr
  λ d w.
      if has csr 0x10
      then some (true, w)
      else (do
        write sr 0x80000000
        await_done max_rounds
        csr ← read plx_dmacsr
        pure (has csr 0x10))
          d w

-- sis1100_ddma_stop, for the file `self`
unfoldable pub ddma_stop : ℕ → M ℕ
unfolding leave
ddma_stop self = do
  lock mux_ddma
  λ d w.
      let dma = w.sc.demand_dma in
      if foreign self dma
      then leave eperm d w
      else if not (is_running dma.status)
      then leave einval d w
      else (do
        disable_irq plxirq_dma0 0
        modify (λ sc. record sc { dma0_hook = false })
        mode ← read plx_dmamode0
        write plx_dmamode0 (bit_or mode 0x4000)
        stopped ← abort_dma
        λ d w.
            if not stopped
            then leave eio d w
            else (do
              write cr 0x40000
              res ← flush_fifo
              modify (set_dma (λ dma. record dma { status = dma_ready }))
              leave 0)
                d w)
          d w

-- What follows the wait of sis1100_ddma_wait.
unfoldable pub finished : M ℕ
unfolding leave
finished = do
  disable_irq plxirq_dma0 0
  modify (set_dma (λ dma. record dma { status = dma_ready }))
  leave 0

-- sis1100_ddma_wait, for the file `self`; the kernel's wait ends because of a signal if `interrupted`.
unfoldable pub ddma_wait : Bool → ℕ → M ℕ
unfolding leave finished
ddma_wait interrupted self = do
  lock mux_ddma
  λ d w.
      let dma = w.sc.demand_dma in
      if not (is_running dma.status) || not (dma.owner == self)
      then leave einval d w
      else (do
        modify (λ sc. record sc { got_irqs = 0 })
        csr ← read plx_dmacsr
        λ d w.
            if has csr 0x10
            then finished d w
            else if interrupted
            then leave eintr d w
            else finished d w)
          d w
