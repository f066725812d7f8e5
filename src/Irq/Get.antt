-- ===== src/Irq/Get.antt =====
-- sis1100_irq_get and sis1100_irq_wait of sis3100/sis1100-2.13/src/sis1100_irq_handler.c, and
-- sis3100rem_get_vector of sis3100rem_irq.c. A time is one number; -1 is the pattern 0xffffffff.
use mdaq_midas.Common.{
  ℕ, zero, suc, bit_and, not32, ◌==◌, Bool, false, not, ◌&&◌, if◌then◌else◌, some, test_bit,
}
use mdaq_midas.Bus.{
  M, pure, ◌>>=◌, ◌>>◌, lock, unlock, signal, gets, modify, when, Softc, Fdata, HwType, hw_vme,
  hw_lvd, hw_invalid, hw_eq, is_running, is_full, block_user, DemandDma, DmaBlock, sem_irqinfo,
  sync_block,
}
use mdaq_midas.Remote.{shl32}
use mdaq_midas.Irq.Owner.{fdata_at, set_fdata}
use mdaq_midas.Irq.Far.{sis3100_vme_irqs, set_vect}
use mdaq_midas.Irq.Control.{next_block, ack_irqs}

abbrev pub eintr : ℕ
eintr = 4

-- struct sis1100_irq_get2
pub record IrqGet : Type 0 where
  pub irq_mask : ℕ
  pub remote_status : ℕ
  pub opt_status : ℕ
  pub mbx0 : ℕ
  pub irqs : ℕ
  pub level : ℕ
  pub vector : ℕ
  pub irq_time : ℕ

-- The loop for the highest digit: `top_bit n mask` has seen 32 - n digits, and mask has been shifted
-- by as many. A mask of 0 ends it too, after 32 rounds.
unfoldable pub top_bit : ℕ → ℕ → ℕ
top_bit zero mask = 0
top_bit (suc n) mask =
    let rest = top_bit n (shl32 mask 1) in if bit_and mask 0x80000000 == 0 then rest else n

abbrev pub is_ready : Softc → ℕ → ℕ → Bool
is_ready sc irqs level = test_bit level irqs && (sc.irq_vects level).valid

abbrev pub take_vector : Softc → ℕ → ℕ → IrqGet → IrqGet
take_vector sc irqs level data_ = record data_ {
  level = level;
  vector = (sc.irq_vects level).vector;
  irq_time = if bit_and irqs (not32 0xff) == 0 then (sc.irq_vects level).time else data_.irq_time;
}

abbrev pub invalidate : ℕ → Softc → Softc
invalidate level sc = record sc {
  irq_vects = set_vect sc.irq_vects level (record (sc.irq_vects level) { valid = false });
}

-- The loop of sis3100rem_get_vector over the levels from n down to 1.
unfoldable pub find_vector : ℕ → ℕ → IrqGet → Softc → IrqGet × Softc
find_vector zero irqs data_ sc = (data_, sc)
find_vector (suc n) irqs data_ sc =
    let rest = find_vector n irqs data_ sc in
    if is_ready sc irqs (suc n)
    then (take_vector sc irqs (suc n) data_, invalidate (suc n) sc)
    else rest

-- sis3100rem_get_vector
unfoldable pub sis3100rem_get_vector : ℕ → IrqGet → Softc → IrqGet × Softc
sis3100rem_get_vector irqs data_ sc =
    if bit_and irqs sis3100_vme_irqs == 0 then (data_, sc) else find_vector 7 irqs data_ sc

-- The first part of sis1100_irq_get.
abbrev pub status_of : Softc → Fdata → IrqGet → IrqGet
status_of sc fd data_ = record data_ {
  irqs = bit_and sc.pending_irqs fd.owned_irqs;
  remote_status =
      if hw_eq fd.old_remote_hw sc.remote_hw
      then 0
      else if hw_eq sc.remote_hw hw_invalid
      then 0xffffffff
      else 1;
  opt_status = sc.last_opt_csr;
  mbx0 = sc.mbx0;
  level = 0;
  vector = 0;
}

abbrev pub set_block : ℕ → DmaBlock → DemandDma → DemandDma
set_block n b dma = record dma { block = λ i. if i == n then b else dma.block i }

-- A full block is given to the user.
abbrev pub give : ℕ → DemandDma → DemandDma
give n dma =
    let b = record (dma.block n) { status = block_user; seq_signal = dma.debug_sequence } in
    record (set_block n b dma) { reading_block = n }

abbrev pub give_block : ℕ → Softc → Softc
give_block n sc = record sc { demand_dma = give n sc.demand_dma }

-- The lvd case, when demand DMA is running.
unfoldable pub get_block : IrqGet → M IrqGet
get_block data_ d w =
    let n = next_block w.sc.demand_dma in
    let b = w.sc.demand_dma.block n in
    if is_full b.status
    then (do
      signal (sync_block n)
      modify (give_block n)
      pure (record data_ { vector = n; irq_time = b.time }))
        d w
    else some (record data_ { vector = 0xffffffff }, w)

unfoldable pub get_far : HwType → IrqGet → M IrqGet
get_far hw_vme data_ d w =
    if bit_and data_.irqs sis3100_vme_irqs == 0
    then some (data_, w)
    else (do
      found ← gets (sis3100rem_get_vector (bit_and data_.irqs data_.irq_mask) data_)
      modify (λ sc. found.1)
      pure found.0)
        d w
get_far hw_lvd data_ d w =
    if is_running w.sc.demand_dma.status then get_block data_ d w else some (data_, w)
get_far _ data_ d w = some (data_, w)

-- What follows when an IRQ is pending.
unfoldable pub get_irqs : IrqGet → M IrqGet
get_irqs data_ = do
  time ← gets (λ sc. sc.irqtimes (top_bit 32 data_.irqs))
  hw ← gets (λ sc. sc.remote_hw)
  result ← get_far hw (record data_ { irq_time = time })
  mask ← gets (λ sc. bit_and sc.autoack_mask result.irqs)
  when (not (mask == 0)) (ack_irqs mask)
  pure result

-- sis1100_irq_get, which always returns 0
unfoldable pub irq_get : ℕ → IrqGet → M (ℕ × IrqGet)
irq_get self data_ = do
  lock sem_irqinfo
  status ← gets (λ sc. status_of sc (fdata_at sc self) data_)
  modify (λ sc. set_fdata self (λ f. record f { old_remote_hw = sc.remote_hw }) sc)
  result ← λ d w. if status.irqs == 0 then some (status, w) else get_irqs status d w
  unlock sem_irqinfo
  pure (0, result)

-- sis1100_irq_wait, when the kernel's wait_event_interruptible has returned: `interrupted` by a
-- signal, or because an IRQ is pending.
unfoldable pub irq_wait : Bool → ℕ → IrqGet → M (ℕ × IrqGet)
irq_wait interrupted self data_ d w =
    if interrupted then some ((eintr, data_), w) else irq_get self data_ d w
