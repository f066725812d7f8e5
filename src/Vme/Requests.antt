-- ===== src/Vme/Requests.antt =====
-- The requests of sis3100/sis1100-2.13/src/sis1100_ioctl.c that make a single transfer. A request's
-- result is its code (0, or an error for which the ioctl fails) and the struct that the kernel
-- copies back to the caller, who sees it changed only when the code is 0.
use mdaq_midas.Common.{
  ℕ, ◌*◌, ◌^◌, bit_and, bit_or, not32, ◌==◌, if◌then◌else◌, Option, some, false,
}
use mdaq_midas.Bus.{
  M, pure, ◌>>=◌, ◌>>◌, read, write, lock, unlock, hw_invalid, hw_eq, Subdev, subdev_ctrl, reg,
  sem_hw,
}
use mdaq_midas.Remote.{
  tmp_read, tmp_write, tmp_write_blind, tmp_camacread, tmp_camacwrite, remote_reg_read,
  remote_reg_write,
}

abbrev pub enxio : ℕ
enxio = 6

abbrev pub einval : ℕ
einval = 22

-- struct sis1100_vme_req; a negative address modifier is `none`.
pub record VmeReq : Type 0 where
  pub size : ℕ
  pub am : Option ℕ
  pub addr : ℕ
  pub data_ : ℕ
  pub error : ℕ

-- struct sis1100_ctrl_reg
pub record CtrlReg : Type 0 where
  pub offset : ℕ
  pub val : ℕ
  pub error : ℕ

-- struct sis1100_camac_req
pub record CamacReq : Type 0 where
  pub n : ℕ
  pub a : ℕ
  pub f : ℕ
  pub data_ : ℕ
  pub error : ℕ

-- `if (sc->remote_hw==sis1100_hw_invalid) return ENXIO;`
unfoldable pub if_linked : {A : Type 0} → A → M (ℕ × A) → M (ℕ × A)
if_linked req m d w = if hw_eq w.sc.remote_hw hw_invalid then some ((enxio, req), w) else m d w

-- ioctl_vme_read
unfoldable pub ioctl_vme_read : VmeReq → M (ℕ × VmeReq)
unfolding if_linked
ioctl_vme_read req = if_linked req (do
  (error, v) ← tmp_read req.addr req.am req.size 1 req.data_
  pure (0, record req { error = error; data_ = v }))

-- ioctl_vme_write
unfoldable pub ioctl_vme_write : VmeReq → M (ℕ × VmeReq)
unfolding if_linked
ioctl_vme_write req = if_linked req (do
  error ← tmp_write req.addr req.am req.size 1 req.data_
  pure (0, record req { error = error }))

-- ioctl_vme_write_blind
unfoldable pub ioctl_vme_write_blind : VmeReq → M (ℕ × VmeReq)
unfolding if_linked
ioctl_vme_write_blind req = if_linked req (do
  error ← tmp_write_blind req.addr req.am req.size 1 req.data_
  pure (0, record req { error = error }))

unfoldable pub ctrl_read_local : CtrlReg → M (ℕ × CtrlReg)
ctrl_read_local d =
    if bit_and d.offset (not32 0xfff) == 0
    then (do
      lock sem_hw
      v ← read (reg d.offset)
      unlock sem_hw
      pure (0, record d { val = v; error = 0 }))
    else pure (einval, d)

unfoldable pub ctrl_read_remote : CtrlReg → M (ℕ × CtrlReg)
ctrl_read_remote d =
    if bit_and d.offset (not32 0x7ff) == 0
    then (do
      (error, v) ← remote_reg_read d.offset false
      pure (0, record d { val = v; error = error }))
    else pure (einval, d)

-- ioctl_ctrl_read
unfoldable pub ioctl_ctrl_read : Subdev → CtrlReg → M (ℕ × CtrlReg)
unfolding ctrl_read_local ctrl_read_remote
ioctl_ctrl_read subdev_ctrl d = ctrl_read_local d
ioctl_ctrl_read _ d = ctrl_read_remote d

unfoldable pub ctrl_write_local : CtrlReg → M (ℕ × CtrlReg)
ctrl_write_local d =
    if bit_and d.offset (not32 0xfff) == 0
    then (do
      lock sem_hw
      write (reg d.offset) d.val
      unlock sem_hw
      pure (0, record d { error = 0 }))
    else pure (einval, d)

unfoldable pub ctrl_write_remote : CtrlReg → M (ℕ × CtrlReg)
ctrl_write_remote d =
    if bit_and d.offset (not32 0x7ff) == 0
    then (do error ← remote_reg_write d.offset d.val false; pure (0, record d { error = error }))
    else pure (einval, d)

-- ioctl_ctrl_write
unfoldable pub ioctl_ctrl_write : Subdev → CtrlReg → M (ℕ × CtrlReg)
unfolding ctrl_write_local ctrl_write_remote
ioctl_ctrl_write subdev_ctrl d = ctrl_write_local d
ioctl_ctrl_write _ d = ctrl_write_remote d

-- SIS5100_CAMACaddr (sis1100_sc.h)
unfoldable pub camac_addr : ℕ → ℕ → ℕ → ℕ
camac_addr n a f =
    bit_or (bit_or (bit_and f 0x1f * 2 ^ 11) (bit_and n 0x1f * 2 ^ 6)) (bit_and a 0xf * 2 ^ 2)

-- ioctl_cnaf
unfoldable pub ioctl_cnaf : CamacReq → M (ℕ × CamacReq)
unfolding camac_addr
ioctl_cnaf req =
    if bit_and req.f 0x18 == 0x00
    then (do
      (error, v) ← tmp_camacread (camac_addr req.n req.a req.f)
      pure (0, record req { error = error; data_ = v }))
    else (do
      error ←
          tmp_camacwrite (camac_addr req.n req.a req.f)
            (if bit_and req.f 0x18 == 0x10 then req.data_ else 0)
      pure (0, record req { error = error }))
