-- ===== src/Setup/Sdram.antt =====
-- The serial EEPROM of the VME controller's SDRAM: sis3100/sis1100-2.13/src/sis1100_init_sdram.c. The
-- lines SCL, SDA and SDA_OE are the bits 1, 2 and 4 of one register behind the link.
use mdaq_midas.Common.{
  ℕ, zero, suc, ◌*◌, ◌/◌, ◌%◌, ◌^◌, bit_and, bit_or, ◌==◌, Bool, true, false, if◌then◌else◌, List,
  [], ◌∷◌, ◌++◌,
}
use mdaq_midas.Bus.{
  M, pure, ◌>>=◌, ◌>>◌, read, write, modify, skip, Softc, t_hdr, t_dal, t_adl, tc_dal,
  read_prot_error,
}

abbrev sdram_eeprom_ctrl_stat : ℕ
sdram_eeprom_ctrl_stat = 0x40000400

-- sis1100_spd_write; no caller looks at the error.
unfoldable pub spd_write : ℕ → M (Unit {0})
spd_write val = do
  write t_hdr 0x0f060402
  write t_dal val
  write t_adl sdram_eeprom_ctrl_stat
  error ← read_prot_error
  skip

-- sis1100_spd_read: the value, whose error no caller looks at
unfoldable pub spd_read : M ℕ
spd_read = do
  write t_hdr 0x0f060002
  write t_adl sdram_eeprom_ctrl_stat
  error ← read_prot_error
  read tc_dal

-- The lines, one after the other.
unfoldable pub spd_writes : List ℕ → M (Unit {0})
spd_writes [] = skip
spd_writes (v ∷ l) = do spd_write v; spd_writes l

-- sdram_eeprom_start
abbrev pub sdram_eeprom_start : M (Unit {0})
sdram_eeprom_start = spd_writes (0 ∷ 6 ∷ 7 ∷ 5 ∷ 4 ∷ 0 ∷ [])

-- sdram_eeprom_stop
abbrev pub sdram_eeprom_stop : M (Unit {0})
sdram_eeprom_stop = spd_writes (0 ∷ 4 ∷ 5 ∷ 7 ∷ 6 ∷ 0 ∷ [])

-- The loop of sdram_eeprom_read, with n bits to go.
unfoldable pub read_bits : ℕ → ℕ → M ℕ
read_bits zero data_ = pure data_
read_bits (suc n) data_ = do
  spd_writes (0 ∷ 1 ∷ 1 ∷ [])
  d ← spd_read
  read_bits n (bit_or (data_ * 2 % 2 ^ 8) (bit_and d 0x100 / 2 ^ 8))

-- sdram_eeprom_read
unfoldable pub sdram_eeprom_read : Bool → M ℕ
sdram_eeprom_read noack = do
  data_ ← read_bits 8 0
  spd_writes (if noack then 6 ∷ 7 ∷ 7 ∷ 6 ∷ 0 ∷ [] else 4 ∷ 5 ∷ 5 ∷ 4 ∷ 0 ∷ [])
  pure data_

-- The lines of the loop of sdram_eeprom_write, with n bits to go.
unfoldable pub bit_lines : ℕ → ℕ → List ℕ
bit_lines zero val = []
bit_lines (suc n) val =
    let line = if bit_and val 0x80 == 0 then 4 else 6 in
    line ∷ line ∷ bit_or line 1 ∷ line ∷ bit_lines n (val * 2 % 2 ^ 8)

-- sdram_eeprom_write
unfoldable pub sdram_eeprom_write : ℕ → M (Unit {0})
unfolding bit_lines
sdram_eeprom_write val = spd_writes (bit_lines 8 val ++ 0 ∷ 0 ∷ 1 ∷ 1 ∷ 0 ∷ [])

-- The loop that fills eeprom_bytes, with n bytes to go.
unfoldable pub read_bytes : ℕ → M (List ℕ)
read_bytes zero = pure []
read_bytes (suc n) = do b ← sdram_eeprom_read false; l ← read_bytes n; pure (b ∷ l)

-- Bytes 3, 4 and 5 of the eight.
abbrev pub signature : List ℕ → ℕ
signature (a ∷ b ∷ c ∷ row ∷ col ∷ banks ∷ l) = bit_or (bit_or (row * 2 ^ 16) (col * 2 ^ 8)) banks
signature _ = 0

-- The size in bytes, and whether the controller has to be told.
unfoldable pub ram_of : ℕ → ℕ × Bool
ram_of sign =
    if sign == 0x0c0901
    then (64 * 2 ^ 20, false)
    else if sign == 0x0c0902
    then (128 * 2 ^ 20, false)
    else if sign == 0x0d0a01
    then (256 * 2 ^ 20, true)
    else if sign == 0x0d0a02
    then (512 * 2 ^ 20, true)
    else (0, false)

abbrev pub set_ram : ℕ → Softc → Softc
set_ram size sc = record sc { ram_size = size }

-- sis1100_init_sdram, which always returns 0
unfoldable pub init_sdram : M ℕ
init_sdram = do
  sdram_eeprom_start
  sdram_eeprom_write 0xa0
  sdram_eeprom_write 0x00
  sdram_eeprom_start
  sdram_eeprom_write 0xa1
  bytes ← read_bytes 8
  dummy ← sdram_eeprom_read true
  sdram_eeprom_stop
  let ram = ram_of (signature bytes)
  modify (set_ram ram.0)
  spd_writes (if ram.1 then (2 ^ 16) ∷ [] else [])
  pure 0
