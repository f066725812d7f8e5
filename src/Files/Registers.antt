-- ===== src/Files/Registers.antt =====
-- Blocks of registers: sis3100/sis1100-2.13/src/sis1100_ctrl_rw_block.c, and the
-- requests of sis1100_ioctl.c that use it. `n` is the number of words to go.
use mdaq_midas.Common.{ℕ, zero, suc, ◌+◌, ◌%◌, ◌^◌, ◌==◌, Bool, if◌then◌else◌, none, some}
use mdaq_midas.Bus.{
  M, pure, ◌>>=◌, ◌>>◌, read, write, lock, unlock, skip, gets, when, reg, word, Subdev, subdev_ctrl,
  hw_eq, hw_invalid, sem_hw, t_hdr, t_adl, raw_tc_dal, read_prot_error,
}
use mdaq_midas.Block.{fifo_len, send_cells, settle, max_rounds}
use mdaq_midas.Vme.{enxio, einval}
use mdaq_midas.Files.Settings.{truth}
use mdaq_midas.Files.Requests.{CtrlRw, ioctl_ctrl_block_check}

-- `if (!fifo) addr+=4;`
abbrev pub next_register : Bool → ℕ → ℕ
next_register fifo addr = if fifo then addr else (addr + 4) % 2 ^ 32

unfoldable pub read_local_loop : ℕ → Bool → ℕ → ℕ → M (Unit {0})
read_local_loop zero fifo addr data_ = skip
read_local_loop (suc n) fifo addr data_ = do
  val ← read (reg addr)
  write (word data_) val
  read_local_loop n fifo (next_register fifo addr) (data_ + 4)

-- sis1100_pipe_ctrl_read_local, which always returns 0
unfoldable pub ctrl_read_local_block : ℕ → Bool → ℕ → ℕ → M (Unit {0})
ctrl_read_local_block addr fifo count data_ = do
  lock sem_hw
  read_local_loop count fifo addr data_
  unlock sem_hw

unfoldable pub write_local_loop : ℕ → Bool → ℕ → ℕ → M (Unit {0})
write_local_loop zero fifo addr data_ = skip
write_local_loop (suc n) fifo addr data_ = do
  val ← read (word data_)
  write (reg addr) val
  write_local_loop n fifo (next_register fifo addr) (data_ + 4)

-- sis1100_pipe_ctrl_write_local, which always returns 0
unfoldable pub ctrl_write_local_block : ℕ → Bool → ℕ → ℕ → M (Unit {0})
ctrl_write_local_block addr fifo count data_ = do
  lock sem_hw
  write_local_loop count fifo addr data_
  unlock sem_hw

-- The loop of sis1100_pipe_ctrl_read_remote, after idx words: *count_read and *prot_error.
unfoldable pub read_remote_loop : ℕ → ℕ → Bool → ℕ → ℕ → M (ℕ × ℕ)
read_remote_loop zero idx fifo addr data_ = pure (idx, 0)
read_remote_loop (suc n) idx fifo addr data_ = do
  write t_adl addr
  error ← read_prot_error
  λ d w.
      let rest =
        (do
          val ← read raw_tc_dal
          write (word data_) val
          read_remote_loop n (suc idx) fifo (next_register fifo addr) (data_ + 4))
          d w in
      if error == 0 then rest else some ((idx, error), w)

-- sis1100_pipe_ctrl_read_remote, which always returns 0
unfoldable pub ctrl_read_remote_block : ℕ → Bool → ℕ → ℕ → M (ℕ × ℕ)
ctrl_read_remote_block addr fifo count data_ = do
  lock sem_hw
  write t_hdr 0x0f000002
  out ← read_remote_loop count 0 fifo addr data_
  unlock sem_hw
  pure out

-- ioctl_ctrl_read_block on this side: the code, d->count and d->error; the caller sees the last two only
-- when the code is 0.
unfoldable pub read_near : CtrlRw → ℕ → M (ℕ × ℕ × ℕ)
unfolding ioctl_ctrl_block_check
read_near req data_ d w =
    if ioctl_ctrl_block_check req 0xfff == 0
    then (do
      ctrl_read_local_block req.offset (truth req.fifo) req.count data_
      pure (0, req.count, 0))
        d w
    else some ((einval, req.count, 0), w)

-- and on the other side, when the link is there
unfoldable pub read_far : CtrlRw → ℕ → M (ℕ × ℕ × ℕ)
unfolding ioctl_ctrl_block_check
read_far req data_ d w =
    if hw_eq w.sc.remote_hw hw_invalid
    then some ((enxio, req.count, 0), w)
    else if ioctl_ctrl_block_check req 0x7ff == 0
    then (do
      (count, error) ← ctrl_read_remote_block req.offset (truth req.fifo) req.count data_
      pure (0, count, error))
        d w
    else some ((einval, req.count, 0), w)

-- ioctl_ctrl_read_block
abbrev pub ioctl_ctrl_read_block : Subdev → CtrlRw → ℕ → M (ℕ × ℕ × ℕ)
unfolding read_near read_far
ioctl_ctrl_read_block subdev_ctrl req data_ = read_near req data_
ioctl_ctrl_read_block _ req data_ = read_far req data_

-- sis1100_pipe_ctrl_write_remote, which always returns 0: its loops and waits are those of
-- sis1100_write_loop for words of four bytes. The result is *count_written and *prot_error.
unfoldable pub ctrl_write_remote_block : ℕ → Bool → ℕ → ℕ → M (ℕ × ℕ)
ctrl_write_remote_block addr fifo count data_ = do
  lock sem_hw
  size ← gets (λ sc. sc.sendfifo_size)
  write t_hdr 0x0f000404
  when fifo (write t_adl addr)
  first ← send_cells count 4 fifo 0x0f000404 (fifo_len none size) addr data_ 0
  error ← settle max_rounds first
  unlock sem_hw
  pure (if error == 0 then count else 0, error)

-- ioctl_ctrl_write_block on this side,
unfoldable pub write_near : CtrlRw → ℕ → M (ℕ × ℕ × ℕ)
unfolding ioctl_ctrl_block_check
write_near req data_ d w =
    if ioctl_ctrl_block_check req 0xfff == 0
    then (do
      ctrl_write_local_block req.offset (truth req.fifo) req.count data_
      pure (0, req.count, 0))
        d w
    else some ((einval, req.count, 0), w)

-- and on the other one
unfoldable pub write_far : CtrlRw → ℕ → M (ℕ × ℕ × ℕ)
unfolding ioctl_ctrl_block_check
write_far req data_ d w =
    if hw_eq w.sc.remote_hw hw_invalid
    then some ((enxio, req.count, 0), w)
    else if ioctl_ctrl_block_check req 0x7ff == 0
    then (do
      (count, error) ← ctrl_write_remote_block req.offset (truth req.fifo) req.count data_
      pure (0, count, error))
        d w
    else some ((einval, req.count, 0), w)

-- ioctl_ctrl_write_block
abbrev pub ioctl_ctrl_write_block : Subdev → CtrlRw → ℕ → M (ℕ × ℕ × ℕ)
unfolding write_near write_far
ioctl_ctrl_write_block subdev_ctrl req data_ = write_near req data_
ioctl_ctrl_write_block _ req data_ = write_far req data_
