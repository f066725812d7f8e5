-- ===== src/Vme/Library.antt =====
-- The single transfers of the library, sis3100/libsis3100/sis3100_calls/sis3100_vme_calls.c, down to
-- the driver's requests. An int result is its 32-bit pattern, of which -1 is `minus_one`. What a
-- function stores through its pointer is `some`, and `none` if it leaves it alone. The fields that a
-- struct on the stack does not initialise are 0 here: the driver overwrites them when it succeeds,
-- and the library does not look at them when it fails.
use mdaq_midas.Common.{ℕ, ◌+◌, ◌*◌, ◌%◌, ◌^◌, ◌==◌, if◌then◌else◌, Option, none, some}
use mdaq_midas.Bus.{M, pure, ◌>>=◌}
use mdaq_midas.Vme.Requests.{VmeReq, ioctl_vme_read, ioctl_vme_write}

abbrev pub minus_one : ℕ
minus_one = 0xffffffff

-- What a read returns and stores, from the ioctl's code and the struct.
unfoldable pub read_result : ℕ × VmeReq → ℕ × Option ℕ
read_result (res, req) =
    if res == 0
    then (if req.error == 0 then (0, some (req.data_ % 2 ^ (8 * req.size))) else (req.error, none))
    else (minus_one, none)

-- The body that the reads share.
unfoldable pub single_read : ℕ → ℕ → ℕ → M (ℕ × Option ℕ)
unfolding read_result
single_read size am vme_adr = do
  answer ← ioctl_vme_read record { size = size; am = some am; addr = vme_adr; data_ = 0; error = 0 }
  pure (read_result answer)

unfoldable pub write_result : ℕ × VmeReq → ℕ
write_result (res, req) = if res == 0 then (if req.error == 0 then 0 else req.error) else minus_one

-- The body that the writes share; the datum comes as an unsigned type of `size` bytes.
unfoldable pub single_write : ℕ → ℕ → ℕ → ℕ → M ℕ
unfolding write_result
single_write size am vme_adr vme_data = do
  answer ← ioctl_vme_write record {
    size = size;
    am = some am;
    addr = vme_adr;
    data_ = vme_data % 2 ^ (8 * size);
    error = 0;
  }
  pure (write_result answer)

unfoldable pub vme_iack_d8_read : ℕ → M (ℕ × Option ℕ)
unfolding single_read
vme_iack_d8_read vme_irq_level = single_read 1 0x4000 ((vme_irq_level * 2 + 1) % 2 ^ 32)

unfoldable pub vme_a16d8_read : ℕ → M (ℕ × Option ℕ)
unfolding single_read
vme_a16d8_read vme_adr = single_read 1 0x29 vme_adr

unfoldable pub vme_a16d16_read : ℕ → M (ℕ × Option ℕ)
unfolding single_read
vme_a16d16_read vme_adr = single_read 2 0x29 vme_adr

unfoldable pub vme_a16d32_read : ℕ → M (ℕ × Option ℕ)
unfolding single_read
vme_a16d32_read vme_adr = single_read 4 0x29 vme_adr

unfoldable pub vme_a16d8_write : ℕ → ℕ → M ℕ
unfolding single_write
vme_a16d8_write vme_adr vme_data = single_write 1 0x29 vme_adr vme_data

unfoldable pub vme_a16d16_write : ℕ → ℕ → M ℕ
unfolding single_write
vme_a16d16_write vme_adr vme_data = single_write 2 0x29 vme_adr vme_data

unfoldable pub vme_a16d32_write : ℕ → ℕ → M ℕ
unfolding single_write
vme_a16d32_write vme_adr vme_data = single_write 4 0x29 vme_adr vme_data

unfoldable pub vme_a24d8_read : ℕ → M (ℕ × Option ℕ)
unfolding single_read
vme_a24d8_read vme_adr = single_read 1 0x39 vme_adr

unfoldable pub vme_a24d16_read : ℕ → M (ℕ × Option ℕ)
unfolding single_read
vme_a24d16_read vme_adr = single_read 2 0x39 vme_adr

unfoldable pub vme_a24d32_read : ℕ → M (ℕ × Option ℕ)
unfolding single_read
vme_a24d32_read vme_adr = single_read 4 0x39 vme_adr

unfoldable pub vme_a24d8_write : ℕ → ℕ → M ℕ
unfolding single_write
vme_a24d8_write vme_adr vme_data = single_write 1 0x39 vme_adr vme_data

unfoldable pub vme_a24d16_write : ℕ → ℕ → M ℕ
unfolding single_write
vme_a24d16_write vme_adr vme_data = single_write 2 0x39 vme_adr vme_data

unfoldable pub vme_a24d32_write : ℕ → ℕ → M ℕ
unfolding single_write
vme_a24d32_write vme_adr vme_data = single_write 4 0x39 vme_adr vme_data

unfoldable pub vme_a32d8_read : ℕ → M (ℕ × Option ℕ)
unfolding single_read
vme_a32d8_read vme_adr = single_read 1 0x9 vme_adr

unfoldable pub vme_a32d16_read : ℕ → M (ℕ × Option ℕ)
unfolding single_read
vme_a32d16_read vme_adr = single_read 2 0x9 vme_adr

unfoldable pub vme_a32d32_read : ℕ → M (ℕ × Option ℕ)
unfolding single_read
vme_a32d32_read vme_adr = single_read 4 0x9 vme_adr

unfoldable pub vme_a32d8_write : ℕ → ℕ → M ℕ
unfolding single_write
vme_a32d8_write vme_adr vme_data = single_write 1 0x9 vme_adr vme_data

unfoldable pub vme_a32d16_write : ℕ → ℕ → M ℕ
unfolding single_write
vme_a32d16_write vme_adr vme_data = single_write 2 0x9 vme_adr vme_data

unfoldable pub vme_a32d32_write : ℕ → ℕ → M ℕ
unfolding single_write
vme_a32d32_write vme_adr vme_data = single_write 4 0x9 vme_adr vme_data
