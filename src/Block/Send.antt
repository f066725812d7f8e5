-- ===== src/Block/Send.antt =====
-- sis1100_write_loop (sis3100/sis1100-2.13/src/sis1100_write_loop.c). Access to user memory has been
-- checked before, so that a load cannot fail. The wait for room in the FIFO runs for at most
-- `patience` rounds of the device, and has no result when it is still waiting then.
use mdaq_midas.Common.{
  ℕ, zero, suc, ◌+◌, ◌-◌, ◌*◌, ◌/◌, ◌%◌, ◌^◌, bit_and, bit_or, leb, ◌==◌, ◌||◌, ◌&&◌, Bool, not,
  if◌then◌else◌, Option, none, some,
}
use mdaq_midas.Bus.{
  M, pure, ◌>>=◌, ◌>>◌, read, write, lock, unlock, when, gets, sem_hw, sr, t_hdr, t_adl, t_dal,
  tc_hdr, p_balance, prot_error, read_prot_error,
}
use mdaq_midas.Remote.{shl32, le_dlock, with_am, write_am}
use mdaq_midas.Block.Loop.{cell, lanes, next_addr}

-- `a >= b` on two int
abbrev pub int_geb : ℕ → ℕ → Bool
int_geb a b = leb ((b + 2 ^ 31) % 2 ^ 32) ((a + 2 ^ 31) % 2 ^ 32)

-- The int sendfifo_size/4-1 with an address modifier, and sendfifo_size/3-1 without one.
abbrev pub fifo_len : Option ℕ → ℕ → ℕ
fifo_len none size = (size / 3 + 2 ^ 32 - 1) % 2 ^ 32
fifo_len (some am) size = (size / 4 + 2 ^ 32 - 1) % 2 ^ 32

-- The loop of wait_for_fifo for `fuel` rounds; the result is the error and *cc.
unfoldable pub wait_rounds : ℕ → ℕ → ℕ → M (ℕ × ℕ)
wait_rounds zero fifolen cc d w = none
wait_rounds (suc fuel) fifolen cc d w =
    let again =
      (do
        status ← read sr
        λ d w.
            let ended = (do err ← read prot_error; pure (err, cc)) in
            let more = (do balance ← read p_balance; wait_rounds fuel fifolen balance) in
            if bit_and status 0x4000 == 0 then more d w else ended d w)
        d w in
    if int_geb cc fifolen then again else some ((0, cc), w)

-- wait_for_fifo
unfoldable pub wait_for_fifo : ℕ → ℕ → M (ℕ × ℕ)
unfolding wait_rounds
wait_for_fifo fifolen cc d w = wait_rounds d.patience fifolen cc d w

-- The datum on all lanes of the word.
unfoldable pub widen : ℕ → ℕ → ℕ
widen size val =
    if size == 1
    then (let v = bit_or (bit_and val 0xff) (shl32 (bit_and val 0xff) 8) in bit_or v (shl32 v 16))
    else if size == 2
    then bit_or (bit_and val 0xffff) (shl32 (bit_and val 0xffff) 16)
    else val

-- What comes before the words: one header for all words of four bytes, and one cycle for all words
-- in FIFO mode.
unfoldable pub open_block : ℕ → Bool → ℕ → ℕ → M (Unit {0})
open_block size fifo_mode head addr = do
  when (size == 4 || fifo_mode)
      (write t_hdr (bit_or head (if size == 4 then 0x0f000000 else lanes size addr)))
  when fifo_mode (write t_adl addr)

-- One word, from user memory to the link.
unfoldable pub send_cell : ℕ → Bool → ℕ → ℕ → ℕ → M (Unit {0})
unfolding widen
send_cell size fifo_mode head addr data_ = do
  val ← read (cell size data_)
  when (not fifo_mode && not (size == 4)) (write t_hdr (bit_or head (lanes size addr)))
  when (not fifo_mode) (write t_adl addr)
  write t_dal (widen size val)

-- The loops over the words, with n of them to go; the result is *prot_error.
unfoldable pub send_cells : ℕ → ℕ → Bool → ℕ → ℕ → ℕ → ℕ → ℕ → M ℕ
send_cells zero size fifo_mode head fifolen addr data_ cc = pure 0
send_cells (suc n) size fifo_mode head fifolen addr data_ cc = do
  send_cell size fifo_mode head addr data_
  (err, cc') ← wait_for_fifo fifolen ((cc + 1) % 2 ^ 32)
  λ d w.
      let rest =
        send_cells n size fifo_mode head fifolen (next_addr fifo_mode size addr) (data_ + size)
          cc' in
      if err == 0 then rest d w else some (err, w)

-- What an error code means, after a confirmation has been read if it is needed.
unfoldable pub confirm : ℕ → M ℕ
confirm error d w =
    if error == le_dlock
    then (do
      head ← read tc_hdr
      pure (if bit_and head 0x300 == 0x300 then bit_or (bit_and (head / 2 ^ 24) 0xff) 0x200 else 0))
        d w
    else some (error, w)

abbrev pub le_to : ℕ
le_to = 0x107

-- The loop that waits for the outstanding words, with `left` rounds to go; `first` is *prot_error.
unfoldable pub settle : ℕ → ℕ → M ℕ
unfolding confirm
settle zero first d w = some (first, w)
settle (suc left) first d w =
    (do
      balance ← read p_balance
      code ← read_prot_error
      error ← confirm code
      when (error == le_to) (write p_balance 0)
      λ d w.
          let first' = if not (error == 0) && first == 0 then error else first in
          let rest = settle left first' d w in if balance == 0 then some (first', w) else rest)
      d w

abbrev pub max_rounds : ℕ
max_rounds = 1000000

-- What is done under sem_hw after the address modifier; the result is *prot_error.
unfoldable pub send_block : ℕ → Bool → ℕ → ℕ → ℕ → ℕ → ℕ → M ℕ
send_block size fifo_mode head fifolen addr data_ count = do
  write sr 0x8000
  error ←
      if size == 1 || size == 2 || size == 4
      then (open_block size fifo_mode head addr
          >> send_cells count size fifo_mode head fifolen addr data_ 0)
      else pure 0
  settle max_rounds error

-- sis1100_write_loop, which always returns 0; the result is *count_written and *prot_error.
unfoldable pub write_loop : ℕ → Option ℕ → ℕ → ℕ → Bool → ℕ → ℕ → M (ℕ × ℕ)
write_loop addr am size space fifo_mode count data_ = do
  lock sem_hw
  fifo ← gets (λ sc. sc.sendfifo_size)
  write_am am
  error ←
      send_block size fifo_mode (with_am am (bit_or 0x00000404 (bit_and space 0x3f * 2 ^ 16)))
        (fifo_len am fifo) addr data_ count
  unlock sem_hw
  pure (if error == 0 then count else 0, error)
