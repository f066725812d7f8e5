-- ===== src/Bus/State.antt =====
-- struct sis1100_softc (sis1100_sc_linux.h) with the fields that the modelled code reads or
-- writes, struct sis1100_fdata, and the enumerations of sis1100_var.h that they use.
use mdaq_midas.Common.{ℕ, Bool, true, false, List, Option}

-- enum sis1100_hw_type
pub data HwType : Type 0 where
  hw_invalid hw_pci hw_vme hw_camac hw_lvd hw_pandapixel hw_psf4ad : HwType

abbrev pub hw_eq : HwType → HwType → Bool
hw_eq hw_invalid hw_invalid = true
hw_eq hw_pci hw_pci = true
hw_eq hw_vme hw_vme = true
hw_eq hw_camac hw_camac = true
hw_eq hw_lvd hw_lvd = true
hw_eq hw_pandapixel hw_pandapixel = true
hw_eq hw_psf4ad hw_psf4ad = true
hw_eq _ _ = false

-- enum sis1100_subdev
pub data Subdev : Type 0 where
  subdev_remote subdev_ram subdev_ctrl subdev_dsp : Subdev

-- struct irq_vects; `vector` is an int32_t, of which -1 is the pattern 0xffffffff
pub record IrqVect : Type 0 where
  pub time : ℕ
  pub vector : ℕ
  pub valid : Bool

-- struct sis1100_fdata
pub record Fdata : Type 0 where
  pub pid : ℕ
  pub owned_irqs : ℕ
  pub sig : ℕ
  pub old_remote_hw : HwType

-- enum dmastatus
pub data DmaStatus : Type 0 where
  dma_invalid dma_ready dma_running : DmaStatus

abbrev pub is_running : DmaStatus → Bool
is_running dma_running = true
is_running _ = false

-- enum dmablockstatus
pub data BlockStatus : Type 0 where
  block_free block_dma block_full block_user : BlockStatus

abbrev pub is_full : BlockStatus → Bool
is_full block_full = true
is_full _ = false

-- struct demand_dma_block
pub record DmaBlock : Type 0 where
  pub dmadpr0 : ℕ
  pub time : ℕ
  pub status : BlockStatus
  pub seq_write_start : ℕ
  pub seq_write_end : ℕ
  pub seq_signal : ℕ
  pub seq_free : ℕ

-- struct demand_dma. The owner, a pointer to a file's data, is the file's index; the int -1 in
-- reading_block and in the sequence numbers of a block is the pattern 0xffffffff.
pub record DemandDma : Type 0 where
  pub status : DmaStatus
  pub owner : ℕ
  pub numblocks : ℕ
  pub block : ℕ → DmaBlock
  pub is_blocked : Bool
  pub writing_block : ℕ
  pub reading_block : ℕ
  pub debug_sequence : ℕ

-- struct sis1100_softc; remote_endian is `remote_big_endian`.
pub record Softc : Type 0 where
  pub fdata : List (Option Fdata)
  pub silicon_id : ℕ
  pub remote_ident : ℕ
  pub remote_hw : HwType
  pub doorbell : ℕ
  pub lemo_status : ℕ
  pub mbx0 : ℕ
  pub got_irqs : ℕ
  pub irq_vects : ℕ → IrqVect
  pub irqtimes : ℕ → ℕ
  pub autoack_mask : ℕ
  pub pending_irqs : ℕ
  pub command : ℕ
  pub ram_size : ℕ
  pub dsp_present : Bool
  pub remote_big_endian : Bool
  pub user_wants_swap : Bool
  pub last_opt_csr : ℕ
  pub demand_dma : DemandDma
  pub dma0_hook : Bool
  pub using_dac : Bool
  pub eemask : ℕ
  pub eeprom_addr_len : ℕ
  pub sendfifo_size : ℕ
