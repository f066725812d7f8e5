-- ===== src/Vme/Control.antt =====
-- s3100_control_read, s3100_control_write and vmesysreset of
-- sis3100/libsis3100/sis3100_calls/sis3100_vme_calls.c. A handle is open on one subdevice of the
-- driver. The wait of vmesysreset (usleep) is not modelled.
use mdaq_midas.Common.{ℕ, ◌==◌, if◌then◌else◌, some}
use mdaq_midas.Bus.{M, pure, ◌>>=◌, Subdev}
use mdaq_midas.Vme.Requests.{ioctl_ctrl_read, ioctl_ctrl_write}
use mdaq_midas.Vme.Library.{minus_one}

-- `ioctl(...)<0` as an int
abbrev pub failed : ℕ → ℕ
failed res = if res == 0 then 0 else 1

-- s3100_control_read; the result is the error and *data. A struct that the driver did not fill in
-- has `old` in it.
unfoldable pub s3100_control_read : Subdev → ℕ → ℕ → M (ℕ × ℕ)
s3100_control_read p offset old = do
  (res, answer) ← ioctl_ctrl_read p record { offset = offset; val = old; error = 0 }
  pure (failed res, answer.val)

-- s3100_control_write
unfoldable pub s3100_control_write : Subdev → ℕ → ℕ → M ℕ
s3100_control_write p offset v = do
  (res, answer) ← ioctl_ctrl_write p record { offset = offset; val = v; error = 0 }
  pure (failed res)

-- vmesysreset
unfoldable pub vmesysreset : Subdev → M ℕ
vmesysreset p = do
  error ← s3100_control_write p 0x100 0x2
  λ d w.
      if error == 0
      then (do
        error' ← s3100_control_write p 0x100 0x20000
        pure (if error' == 0 then 0 else minus_one))
          d w
      else some (minus_one, w)
