-- ===== src/Remote/Defs.antt =====
-- sis1100_tmp_read.c and sis1100_tmp_write.c, on a little-endian machine. The address modifier is
-- an int32_t of which only the sign is tested when it is negative: `none` is a negative one.
-- The barriers (rmb, wmb, mb) order the accesses as they are written, which the trace does anyway.
use mdaq_midas.Common.{
  ℕ, ◌+◌, ◌-◌, ◌*◌, ◌/◌, ◌%◌, ◌^◌, bit_and, bit_or, ◌==◌, Bool, not, if◌then◌else◌, Option, none,
  some,
}
use mdaq_midas.Bus.{
  M, pure, ◌>>=◌, ◌>>◌, read, write, lock, unlock, skip, when, reg, sem_hw, ident, t_hdr, raw_t_hdr,
  t_am, t_adl, t_dal, tc_hdr, tc_dal, raw_tc_dal, read_prot_error,
}

-- x << k on a u_int32_t
abbrev pub shl32 : ℕ → ℕ → ℕ
shl32 x k = x * 2 ^ k % 2 ^ 32

abbrev pub le_dlock : ℕ
le_dlock = 0x105

-- The byte enables of the header.
unfoldable pub byte_enable : ℕ → ℕ → ℕ
byte_enable size addr = shl32 (bit_and (shl32 0x00f00000 size) 0x0f000000) (bit_and addr 3)

-- `base` is 0x00000002 for a read and 0x00000402 for a write.
unfoldable pub header : ℕ → ℕ → ℕ → ℕ → ℕ
header base size space addr =
    bit_or (bit_or base (bit_and space 0x3f * 2 ^ 16)) (byte_enable size addr)

-- `if (am>=0) { head|=0x800; sis1100writereg(sc, t_am, am); }`
unfoldable pub with_am : Option ℕ → ℕ → ℕ
with_am none head = head
with_am (some am) head = bit_or head 0x800

unfoldable pub write_am : Option ℕ → M (Unit {0})
write_am none = skip
write_am (some am) = write t_am am

-- The error that a confirmation reports, 0 if it is not an error confirmation.
unfoldable pub confirmation_error : ℕ → ℕ
confirmation_error head = if bit_and head 0x300 == 0x300 then bit_or 0x200 (head / 2 ^ 24) else 0

-- `if (error==sis1100_le_dlock) { ... }`: the transfer was aborted, and its confirmation counts.
unfoldable pub resolve : ℕ → M ℕ
resolve error d w =
    if error == le_dlock
    then (do head ← read raw_t_hdr; pure (confirmation_error head)) d w
    else some (error, w)

-- `do { error=... } while (error==sis1100_e_dlock); if (error==sis1100_le_dlock) ...`
unfoldable pub await_confirmation : M ℕ
await_confirmation = do error ← read_prot_error; resolve error

-- The lane of the word in which the addressed datum arrives; an odd size leaves *data alone.
unfoldable pub extract : ℕ → ℕ → ℕ → ℕ → ℕ
extract size addr old word =
    if size == 4
    then word
    else if size == 2
    then bit_and (word / 2 ^ (bit_and addr 2 * 2 ^ 3)) 0xffff
    else if size == 1
    then bit_and (word / 2 ^ (bit_and addr 3 * 2 ^ 3)) 0xff
    else old

-- sis1100_tmp_read; the result is the error and *data, whose old value is `old`.
unfoldable pub tmp_read : ℕ → Option ℕ → ℕ → ℕ → ℕ → M (ℕ × ℕ)
tmp_read addr am size space old = do
  lock sem_hw
  write_am am
  write t_hdr (with_am am (header 0x00000002 size space addr))
  write t_adl addr
  error ← await_confirmation
  word ← read raw_tc_dal
  unlock sem_hw
  pure (error, extract size addr old word)

-- sis1100_tmp_camacread
unfoldable pub tmp_camacread : ℕ → M (ℕ × ℕ)
tmp_camacread addr = do
  lock sem_hw
  write t_hdr 0x0f010002
  write t_adl addr
  error ← await_confirmation
  word ← read tc_dal
  unlock sem_hw
  pure (error, word)

unfoldable pub lock_unless : Bool → M (Unit {0})
lock_unless locked = when (not locked) (lock sem_hw)

unfoldable pub unlock_unless : Bool → M (Unit {0})
unlock_unless locked = when (not locked) (unlock sem_hw)

unfoldable pub from_confirmation : ℕ → ℕ → M (ℕ × ℕ)
from_confirmation head val d w =
    if bit_and head 0x300 == 0x300
    then some ((bit_or (bit_and (head / 2 ^ 24) 0xff) 0x200, val), w)
    else (do confirmed ← read tc_dal; pure (0, confirmed)) d w

-- The end of sis1100_remote_reg_read: after an aborted transfer the confirmation has the error, or
-- the value.
unfoldable pub reread : ℕ → ℕ → M (ℕ × ℕ)
unfolding from_confirmation
reread error val d w =
    if error == le_dlock
    then (do head ← read tc_hdr; from_confirmation head val) d w
    else some ((error, val), w)

-- sis1100_remote_reg_read
unfoldable pub remote_reg_read : ℕ → Bool → M (ℕ × ℕ)
remote_reg_read offs locked = do
  lock_unless locked
  val ← read (reg (offs + 0x800))
  error ← read_prot_error
  result ← reread error val
  unlock_unless locked
  pure result

-- The datum on every lane, as the switch of sis1100_tmp_write puts it.
abbrev pub spread_half : ℕ → ℕ
spread_half h = (h + shl32 h 16) % 2 ^ 32

abbrev pub spread_byte : ℕ → ℕ
spread_byte b = (b + shl32 b 8 + shl32 b 16 + shl32 b 24) % 2 ^ 32

unfoldable pub spread : ℕ → ℕ → ℕ
spread size data_ =
    if size == 4
    then data_
    else if size == 2
    then spread_half (bit_and data_ 0xffff)
    else if size == 1
    then spread_byte (bit_and data_ 0xff)
    else data_

-- sis1100_tmp_write
unfoldable pub tmp_write : ℕ → Option ℕ → ℕ → ℕ → ℕ → M ℕ
tmp_write addr am size space data_ = do
  lock sem_hw
  write_am am
  write t_hdr (with_am am (header 0x00000402 size space addr))
  write t_dal (spread size data_)
  write t_adl addr
  error ← await_confirmation
  unlock sem_hw
  pure error

-- The datum on the addressed lanes alone, as sis1100_tmp_write_blind puts it.
unfoldable pub place : ℕ → ℕ → ℕ → ℕ
place size addr data_ =
    shl32 (bit_and data_ (0xffffffff / 2 ^ ((4 - size) * 2 ^ 3))) (bit_and addr 3 * 2 ^ 3)

-- sis1100_tmp_write_blind
unfoldable pub tmp_write_blind : ℕ → Option ℕ → ℕ → ℕ → ℕ → M ℕ
tmp_write_blind addr am size space data_ = do
  lock sem_hw
  write_am am
  write t_hdr (with_am am (header 0x00000402 size space addr))
  write t_dal (place size addr data_)
  write t_adl addr
  flushed ← read ident
  unlock sem_hw
  pure 0

-- sis1100_tmp_camacwrite
unfoldable pub tmp_camacwrite : ℕ → ℕ → M ℕ
tmp_camacwrite addr data_ = do
  lock sem_hw
  write t_hdr 0x0f010402
  write t_dal data_
  write t_adl addr
  error ← await_confirmation
  unlock sem_hw
  pure error

-- sis1100_remote_reg_write
unfoldable pub remote_reg_write : ℕ → ℕ → Bool → M ℕ
remote_reg_write offs data_ locked = do
  lock_unless locked
  write (reg (offs + 0x800)) data_
  error ← await_confirmation
  unlock_unless locked
  pure error
