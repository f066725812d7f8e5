-- ===== src/Irq/Far.antt =====
-- sis3100/sis1100-2.13/src/sis3100rem_irq.c and sis5100rem_irq.c: the interrupt registers of the VME
-- and the CAMAC controller. An int32_t vector of -1 is the pattern 0xffffffff.
use mdaq_midas.Common.{
  ℕ, zero, suc, ◌*◌, ◌/◌, ◌%◌, ◌^◌, bit_and, bit_or, not32, ◌==◌, true, not, if◌then◌else◌, some,
}
use mdaq_midas.Bus.{
  M, pure, ◌>>=◌, ◌>>◌, read, write, lock, unlock, gets, modify, when, skip, sem_hw, Softc, IrqVect,
  t_hdr, t_am, t_adl, tc_dal, in_latch_irq, vme_irq_sc, lam_enable, read_prot_error,
}
use mdaq_midas.Remote.{remote_reg_read, remote_reg_write, shl32}

abbrev pub sis3100_vme_irqs : ℕ
sis3100_vme_irqs = 0xfe

abbrev pub sis3100_ext_irqs : ℕ
sis3100_ext_irqs = 0xff00

abbrev pub sis5100_lam_irqs : ℕ
sis5100_lam_irqs = 0x007fffff

abbrev pub sis5100_ext_irqs : ℕ
sis5100_ext_irqs = 0xf7000000

-- A write whose code the source does not look at.
unfoldable pub put_far : ℕ → ℕ → M (Unit {0})
put_far offs v = do error ← remote_reg_write offs v true; skip

-- `if (mask) m`
unfoldable pub if_any : ℕ → M (Unit {0}) → M (Unit {0})
if_any mask m = when (not (mask == 0)) m

-- _sis3100_irq_acknowledge: the vector that is stored
unfoldable pub acknowledge : ℕ → M ℕ
acknowledge level = do
  write t_hdr (if level % 2 == 1 then 0x0c010802 else 0x03010802)
  write t_am 0x403f
  write t_adl (level * 2)
  error ← read_prot_error
  λ d w.
      if error == 0 then (do v ← read tc_dal; pure (bit_and v 0xff)) d w else some (0xffffffff, w)

abbrev pub set_vect : (ℕ → IrqVect) → ℕ → IrqVect → ℕ → IrqVect
set_vect f n v k = if k == n then v else f k

abbrev pub store_vector : ℕ → ℕ → Softc → Softc
store_vector level v sc = record sc {
  irq_vects =
      set_vect sc.irq_vects level record { time = sc.irqtimes level; vector = v; valid = true };
}

-- The loop of sis3100rem_irq_handler over the levels from `level` down to 1.
unfoldable pub fetch_vectors : ℕ → ℕ → M (Unit {0})
fetch_vectors new_irqs zero = skip
fetch_vectors new_irqs (suc l) = do
  when (not (bit_and new_irqs (2 ^ suc l) == 0))
      do v ← acknowledge (suc l); modify (store_vector (suc l) v)
  fetch_vectors new_irqs l

-- sis3100rem_irq_handler
unfoldable pub sis3100rem_irq_handler : ℕ → M ℕ
sis3100rem_irq_handler doorbell = do
  lock sem_hw
  pending ← gets (λ sc. sc.pending_irqs)
  let new_irqs = bit_and doorbell (not32 pending)
  let vme = bit_and doorbell sis3100_vme_irqs
  if_any vme (put_far vme_irq_sc (shl32 vme 16))
  fetch_vectors new_irqs 7
  let ext = bit_and doorbell sis3100_ext_irqs
  if_any ext (put_far in_latch_irq (bit_or (shl32 ext 8) (shl32 ext 16)))
  put_far vme_irq_sc 0x8000
  unlock sem_hw
  pure new_irqs

-- sis3100rem_enable_irqs
unfoldable pub sis3100rem_enable_irqs : ℕ → M (Unit {0})
sis3100rem_enable_irqs mask = do
  lock sem_hw
  let vme = bit_and mask sis3100_vme_irqs
  if_any vme (put_far vme_irq_sc vme)
  let ext = bit_and mask sis3100_ext_irqs
  if_any ext do put_far in_latch_irq (shl32 ext 16); put_far in_latch_irq (ext / 2 ^ 8)
  put_far vme_irq_sc 0x8000
  unlock sem_hw

-- sis3100rem_disable_irqs
unfoldable pub sis3100rem_disable_irqs : ℕ → M (Unit {0})
sis3100rem_disable_irqs mask = do
  lock sem_hw
  let vme = bit_and mask sis3100_vme_irqs
  if_any vme (put_far vme_irq_sc (shl32 vme 16))
  let ext = bit_and mask sis3100_ext_irqs
  if_any ext (put_far in_latch_irq (shl32 ext 8))
  unlock sem_hw

-- sis3100rem_irq_ack
unfoldable pub sis3100rem_irq_ack : ℕ → M (Unit {0})
sis3100rem_irq_ack irqs = do
  lock sem_hw
  let vme = bit_and irqs sis3100_vme_irqs
  if_any vme (put_far vme_irq_sc vme)
  let ext = bit_and irqs sis3100_ext_irqs
  if_any ext (put_far in_latch_irq (ext / 2 ^ 8))
  put_far vme_irq_sc 0x8000
  unlock sem_hw

-- The bits of the doorbell in the order of lam_enable and of the front panel.
unfoldable pub reorder : ℕ → ℕ
reorder doorbell =
    bit_or (bit_or (bit_and doorbell 0xff) (bit_and (doorbell / 2 ^ 8) 0x007fff00))
      (bit_and (shl32 doorbell 16) 0xf7000000)

-- sis5100rem_irq_handler
unfoldable pub sis5100rem_irq_handler : ℕ → M ℕ
unfolding reorder
sis5100rem_irq_handler doorbell = do
  let bell = reorder doorbell
  lock sem_hw
  (error, enabled) ← remote_reg_read lam_enable true
  let left = bit_and enabled (not32 (bit_and bell sis5100_lam_irqs))
  if_any left (put_far lam_enable left)
  let ext = bit_and bell sis5100_ext_irqs
  if_any ext (put_far in_latch_irq (bit_or ext (ext / 2 ^ 8)))
  put_far in_latch_irq 0x8000
  unlock sem_hw
  gets (λ sc. bit_and bell (not32 sc.pending_irqs))

-- sis5100rem_enable_irqs
unfoldable pub sis5100rem_enable_irqs : ℕ → M (Unit {0})
sis5100rem_enable_irqs mask = do
  lock sem_hw
  (error, enabled) ← remote_reg_read lam_enable true
  let lams = bit_or enabled (bit_and mask sis5100_lam_irqs)
  if_any lams (put_far lam_enable lams)
  let ext = bit_and mask sis5100_ext_irqs
  if_any ext do put_far in_latch_irq ext; put_far in_latch_irq (ext / 2 ^ 24)
  put_far in_latch_irq 0x8000
  unlock sem_hw

-- sis5100rem_disable_irqs
unfoldable pub sis5100rem_disable_irqs : ℕ → M (Unit {0})
sis5100rem_disable_irqs mask = do
  lock sem_hw
  (error, enabled) ← remote_reg_read lam_enable true
  let left = bit_and enabled (not32 (bit_and mask sis5100_lam_irqs))
  if_any left (put_far lam_enable left)
  let ext = bit_and mask sis5100_ext_irqs
  if_any ext (put_far in_latch_irq (bit_or ext (ext / 2 ^ 8)))
  unlock sem_hw

-- sis5100rem_irq_ack
unfoldable pub sis5100rem_irq_ack : ℕ → M (Unit {0})
sis5100rem_irq_ack irqs = do
  lock sem_hw
  (error, enabled) ← remote_reg_read lam_enable true
  let lams = bit_or enabled (bit_and irqs sis5100_lam_irqs)
  if_any lams (put_far lam_enable lams)
  let ext = bit_and irqs sis5100_ext_irqs
  if_any ext (put_far in_latch_irq (ext / 2 ^ 24))
  put_far in_latch_irq 0x8000
  unlock sem_hw
