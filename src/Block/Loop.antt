-- ===== src/Block/Loop.antt =====
-- sis1100_read_loop (sis3100/sis1100-2.13/src/sis1100_read_loop.c) on a little-endian machine. Access
-- to user memory has been checked before, so that a store cannot fail.
use mdaq_midas.Common.{
  ℕ, zero, suc, ◌+◌, ◌*◌, ◌%◌, ◌^◌, bit_and, bit_or, ◌==◌, ◌||◌, Bool, not, if◌then◌else◌, Option,
  some,
}
use mdaq_midas.Bus.{
  M, Port, byte, half, word, pure, ◌>>=◌, ◌>>◌, read, write, lock, unlock, when, sem_hw, t_hdr,
  t_adl, raw_tc_dal, read_prot_error,
}
use mdaq_midas.Remote.{shl32, with_am, write_am, extract}

-- A word of user memory.
abbrev pub cell : ℕ → ℕ → Port
cell size a = if size == 1 then byte a else if size == 2 then half a else word a

-- The lanes that a header enables in the loops for one and for two bytes.
abbrev pub lanes : ℕ → ℕ → ℕ
lanes size addr = shl32 (if size == 1 then 0x01000000 else 0x03000000) (bit_and addr 3)

-- The word that a cycle has brought is stored; nothing is, if the cycle has failed.
unfoldable pub store_word : ℕ → ℕ → ℕ → ℕ → M ℕ
store_word size addr data_ error d w =
    if error == 0
    then (do val ← read raw_tc_dal; write (cell size data_) (extract size addr 0 val); pure 0) d w
    else some (error, w)

-- One round of a loop; the result is *prot_error. The loop for four bytes has one header for all.
unfoldable pub one_word : ℕ → ℕ → ℕ → ℕ → M ℕ
unfolding store_word
one_word size head addr data_ = do
  when (not (size == 4)) (write t_hdr (bit_or head (lanes size addr)))
  write t_adl addr
  error ← read_prot_error
  store_word size addr data_ error

abbrev pub next_addr : Bool → ℕ → ℕ → ℕ
next_addr fifo_mode size addr = if fifo_mode then addr else (addr + size) % 2 ^ 32

-- The n rounds that follow round idx: *count_read and *prot_error, which is `last` after the last.
unfoldable pub rounds : ℕ → ℕ → ℕ → ℕ → Bool → ℕ → ℕ → ℕ → M (ℕ × ℕ)
rounds zero idx size head fifo_mode addr data_ last = pure (idx, last)
rounds (suc n) idx size head fifo_mode addr data_ last =
    let rest =
      rounds n (idx + 1) size head fifo_mode (next_addr fifo_mode size addr) (data_ + size) 0 in
    do
      error ← one_word size head addr data_
      λ d w. if error == 0 then rest d w else some ((idx, error), w)

-- sis1100_read_loop; `old` is *prot_error before. The result is *count_read and *prot_error.
unfoldable pub read_loop : ℕ → Option ℕ → ℕ → ℕ → Bool → ℕ → ℕ → ℕ → M (ℕ × ℕ)
read_loop addr am size space fifo_mode count data_ old = do
  lock sem_hw
  write_am am
  when (size == 4) (
      write t_hdr
        (bit_or (with_am am (bit_or 0x00000002 (bit_and space 0x3f * 2 ^ 16))) 0x0f000000))
  result ←
      if size == 1 || size == 2 || size == 4
      then rounds count 0 size (with_am am (bit_or 0x00000002 (bit_and space 0x3f * 2 ^ 16)))
          fifo_mode addr data_ old
      else pure (count, old)
  unlock sem_hw
  pure result
