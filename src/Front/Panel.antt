-- ===== src/Front/Panel.antt =====
-- The front panels: sis1100_front_io.c, sis1100rem_front_io.c, sis3100rem_front_io.c and
-- sis5100rem_front_io.c of sis3100/sis1100-2.13/src. `data_` is what `*data` points to; each function
-- gives its new value, and those that the driver calls always return 0.
use mdaq_midas.Common.{ℕ, ◌/◌, ◌^◌, bit_and, bit_or, not32, ◌==◌, Bool, not}
use mdaq_midas.Bus.{
  M, Port, reg, pure, ◌>>=◌, ◌>>◌, read, write, gets, when, HwType, hw_vme, hw_camac, hw_pci,
  opt_csr,
}
use mdaq_midas.Remote.{shl32, lock_unless, unlock_unless}

-- in_out, in_latch_irq, and vme_master_sc or camac_sc of the other side
abbrev pub far_in_out : Port
far_in_out = reg 0x880

abbrev pub far_latch : Port
far_latch = reg 0x884

abbrev pub far_sc : Port
far_sc = reg 0x900

-- What sis3100rem_front_io and sis5100rem_front_io do, with the digits that in_out has there.
unfoldable pub controller_io : ℕ → ℕ → M ℕ
controller_io io data_ = do
  io_now ← read far_in_out
  sc_now ← read far_sc
  let io_new = bit_and data_ io
  let sc_new = bit_and data_ 0x00800080
  when (not (io_new == 0)) (write far_in_out io_new)
  when (not (sc_new == 0)) (write far_sc sc_new)
  pure (bit_or (bit_and io_now io) (bit_and sc_now 0x80))

-- sis3100rem_front_io
abbrev pub sis3100rem_front_io : ℕ → M ℕ
unfolding controller_io
sis3100rem_front_io data_ = controller_io 0x7f007f data_

-- sis5100rem_front_io
abbrev pub sis5100rem_front_io : ℕ → M ℕ
unfolding controller_io
sis5100rem_front_io data_ = controller_io 0x770077 data_

-- sis1100rem_front_io
abbrev pub sis1100rem_front_io : ℕ → M ℕ
sis1100rem_front_io data_ = pure data_

-- What the driver's own outputs become, and what it reports of its own panel.
abbrev pub outputs : ℕ → ℕ → ℕ
outputs opt data_ =
    bit_or (bit_and (bit_and opt 0xff) (not32 (bit_and (data_ / 2 ^ 20) 0xf0)))
      (bit_and (data_ / 2 ^ 4) 0xf0)

abbrev pub panel_status : ℕ → ℕ
panel_status opt = bit_or (shl32 (bit_and opt 0xf0) 4) (shl32 (bit_and opt 0x300) 16)

-- The switch of sis1100_front_io.
unfoldable pub far_io : HwType → ℕ → M ℕ
far_io hw_pci data_ = sis1100rem_front_io data_
far_io hw_vme data_ = sis3100rem_front_io data_
far_io hw_camac data_ = sis5100rem_front_io data_
far_io _ data_ = pure data_

-- sis1100_front_io
unfoldable pub front_io : ℕ → Bool → M ℕ
unfolding far_io
front_io data_ locked = do
  lock_unless locked
  opt ← read opt_csr
  write opt_csr (outputs opt data_)
  hw ← gets (λ sc. sc.remote_hw)
  far ← far_io hw data_
  unlock_unless locked
  pure (bit_or far (panel_status opt))

-- sis3100rem_front_pulse
abbrev pub sis3100rem_front_pulse : ℕ → M (Unit {0})
sis3100rem_front_pulse data_ = write far_in_out (bit_and (shl32 data_ 24) 0x7f000000)

-- The switch of sis1100_front_pulse: the panels of CAMAC controllers and PCI boards are left alone.
abbrev pub far_pulse : HwType → ℕ → M (Unit {0})
far_pulse hw_vme data_ = sis3100rem_front_pulse data_
far_pulse _ data_ = pure tt

-- sis1100_front_pulse
unfoldable pub front_pulse : ℕ → Bool → M (Unit {0})
front_pulse data_ locked = do
  lock_unless locked
  hw ← gets (λ sc. sc.remote_hw)
  far_pulse hw data_
  unlock_unless locked

-- sis3100rem_front_latch
abbrev pub sis3100rem_front_latch : ℕ → M ℕ
sis3100rem_front_latch data_ = do
  old ← read far_latch
  write far_latch (bit_and (shl32 data_ 24) 0xff000000)
  pure (bit_and (old / 2 ^ 24) 0xff)

-- The switch of sis1100_front_latch.
abbrev pub far_latched : HwType → ℕ → M ℕ
far_latched hw_vme data_ = sis3100rem_front_latch data_
far_latched _ data_ = pure data_

-- sis1100_front_latch
unfoldable pub front_latch : ℕ → Bool → M ℕ
front_latch data_ locked = do
  lock_unless locked
  hw ← gets (λ sc. sc.remote_hw)
  old ← far_latched hw data_
  unlock_unless locked
  pure old

-- The functions of the other panels, which the driver does not call: sis5100rem_front_pulse,
abbrev pub sis5100rem_front_pulse : ℕ → M (Unit {0})
sis5100rem_front_pulse data_ = write far_in_out (bit_and (shl32 data_ 24) 0x77000000)

-- sis5100rem_front_latch,
abbrev pub sis5100rem_front_latch : ℕ → M ℕ
sis5100rem_front_latch data_ = do
  old ← read far_latch
  write far_latch (bit_and (shl32 data_ 24) 0xff000000)
  pure (bit_and (old / 2 ^ 24) 0xff)

-- and sis1100rem_front_latch.
abbrev pub sis1100rem_front_latch : ℕ → M ℕ
sis1100rem_front_latch data_ = do
  old ← read (reg 0x804)
  write (reg 0x804) (bit_and (shl32 data_ 12) 0x3000)
  pure (bit_and (old / 2 ^ 12) 0x3000)
