-- ===== src/Files/Requests.antt =====
-- Other requests of sis3100/sis1100-2.13/src/sis1100_ioctl.c: resets, the CAMAC commands, the times of
-- the VME controller, JTAG and the registers of the bridge, and the check of a block of registers.
use mdaq_midas.Common.{
  ℕ, ◌+◌, ◌*◌, ◌%◌, ◌^◌, bit_and, not32, ◌==◌, ◌&&◌, ◌||◌, Bool, true, false, not, if◌then◌else◌,
  Option, none, some,
}
use mdaq_midas.Bus.{
  M, pure, ◌>>=◌, ◌>>◌, read, write, lock, unlock, plx, reg, hw_vme, hw_camac, hw_eq, Subdev,
  subdev_remote, sem_hw, cr, p_balance, prot_error,
}
use mdaq_midas.Remote.{tmp_read, tmp_camacwrite, remote_reg_write, shl32}
use mdaq_midas.Eeprom.{eio}
use mdaq_midas.Vme.{enxio, einval, CtrlReg, camac_addr}
use mdaq_midas.Ddma.{flush_fifo}
use mdaq_midas.Setup.{sis3100_get_timeouts, sis3100_set_timeouts}
use mdaq_midas.Files.Settings.{Settings, truth}

-- ioctl_reset, which always returns 0
unfoldable pub ioctl_reset : M ℕ
ioctl_reset = do write cr 1; res ← flush_fifo; write p_balance 0; old ← read prot_error; pure 0

-- `if (sc->remote_hw!=sis1100_hw_camac) return ENXIO;`
unfoldable pub if_camac : M ℕ → M ℕ
if_camac m d w = if not (hw_eq w.sc.remote_hw hw_camac) then some (enxio, w) else m d w

-- ioctl_cccz
abbrev pub ioctl_cccz : M ℕ
unfolding if_camac camac_addr
ioctl_cccz = if_camac (do res ← tmp_camacwrite (camac_addr 28 9 26) 0; pure 0)

-- ioctl_cccc
abbrev pub ioctl_cccc : M ℕ
unfolding if_camac camac_addr
ioctl_cccc = if_camac (do res ← tmp_camacwrite (camac_addr 28 8 26) 0; pure 0)

-- ioctl_ccci
abbrev pub ioctl_ccci : ℕ → M ℕ
unfolding if_camac
ioctl_ccci inhibit =
    if_camac (do res ← remote_reg_write 0x100 (if truth inhibit then 1 else 0x10000) false; pure 0)

-- ioctl_vme_probe
unfoldable pub ioctl_vme_probe : Settings → ℕ → M ℕ
ioctl_vme_probe s addr d w =
    if not (hw_eq w.sc.remote_hw hw_vme)
    then some (enxio, w)
    else (do
      (error, dummy) ← tmp_read addr s.vmespace_am s.vmespace_datasize 1 0
      pure (if error == 0 then 0 else eio))
        d w

abbrev pub is_remote : Subdev → Bool
is_remote subdev_remote = true
is_remote _ = false

-- ioctl_3100_timeouts under sem_hw: the code and the old times, or what the caller gave
unfoldable pub change_timeouts : Option ℕ → Option ℕ → M (ℕ × Option (ℕ × ℕ))
change_timeouts berr arb = do
  (error, old_berr, old_arb) ← sis3100_get_timeouts
  λ d w.
      let set =
        (do
          res ← sis3100_set_timeouts berr arb
          pure (if res == 0 then (0, some (old_berr, old_arb)) else (eio, none)))
          d w in
      if error == 0 then set else some ((eio, none), w)

-- ioctl_3100_timeouts
unfoldable pub ioctl_3100_timeouts : Subdev → Option ℕ → Option ℕ → M (ℕ × Option (ℕ × ℕ))
ioctl_3100_timeouts subdev berr arb d w =
    if not (is_remote subdev) || not (hw_eq w.sc.remote_hw hw_vme)
    then some ((enxio, none), w)
    else (do lock sem_hw; out ← change_timeouts berr arb; unlock sem_hw; pure out) d w

-- ioctl_plx_read and ioctl_plx_write
abbrev pub ioctl_plx_read : CtrlReg → M (ℕ × CtrlReg)
ioctl_plx_read req = do v ← read (plx req.offset); pure (0, record req { val = v; error = 0 })

abbrev pub ioctl_plx_write : CtrlReg → M (ℕ × CtrlReg)
ioctl_plx_write req = do write (plx req.offset) req.val; pure (0, record req { error = 0 })

-- ioctl_jtag_enable and ioctl_jtag_put; test_super always allows them.
abbrev pub ioctl_jtag_enable : ℕ → M ℕ
ioctl_jtag_enable v = do write (reg 0xf4) (shl32 v 8); pure (shl32 v 8)

abbrev pub ioctl_jtag_put : ℕ → M ℕ
ioctl_jtag_put v = do write (reg 0xf4) v; pure v

-- ioctl_jtag_get and ioctl_jtag_data
abbrev pub ioctl_jtag_get : M ℕ
ioctl_jtag_get = read (reg 0xf4)

abbrev pub ioctl_jtag_data : M ℕ
ioctl_jtag_data = read (reg 0xf8)

-- ioctl_jtag_ctrl, which writes from the second byte of the register on
abbrev pub ioctl_jtag_ctrl : ℕ → M ℕ
ioctl_jtag_ctrl v = do write (reg 0xf5) v; read (reg 0xf4)

-- struct sis1100_ctrl_rw, without the data
pub record CtrlRw : Type 0 where
  pub offset : ℕ
  pub fifo : ℕ
  pub count : ℕ

-- ioctl_ctrl_block_check
unfoldable pub ioctl_ctrl_block_check : CtrlRw → ℕ → ℕ
ioctl_ctrl_block_check req max =
    if not (bit_and req.offset 3 == 0)
    then einval
    else if not (bit_and req.offset (not32 max) == 0)
    then einval
    else if not (truth req.fifo)
        && not (bit_and ((req.offset + req.count * 4) % 2 ^ 32) (not32 max) == 0)
    then einval
    else 0
