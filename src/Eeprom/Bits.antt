-- ===== src/Eeprom/Bits.antt =====
-- The commands of sis1100_eeprom.c, bit by bit. The delays (udelay) are not modelled.
use mdaq_midas.Common.{
  ℕ, zero, suc, ◌+◌, ◌-◌, ◌*◌, ◌/◌, ◌%◌, ◌^◌, bit_and, bit_or, not32, leb, ◌==◌, some, none, Bool,
  if◌then◌else◌,
}
use mdaq_midas.Bus.{M, pure, ◌>>=◌, ◌>>◌, read, write, gets, ask, plx_cntrl, jiffies}

abbrev pub ee_sk : ℕ
ee_sk = 0x01000000

abbrev pub ee_cs : ℕ
ee_cs = 0x02000000

abbrev pub ee_di : ℕ
ee_di = 0x04000000

abbrev pub ee_do : ℕ
ee_do = 0x08000000

abbrev pub ee_doe : ℕ
ee_doe = 0x80000000

abbrev pub plx9050_eemask : ℕ
plx9050_eemask = 0x0f000000

abbrev pub plx9056_eemask : ℕ
plx9056_eemask = 0x8f000000

abbrev pub eio : ℕ
eio = 5

-- (EE_DI | EE_DOE) & sc->eemask
abbrev pub data_lines : ℕ → ℕ
data_lines eemask = bit_and 0x84000000 eemask

-- (EE_CS | EE_DI | EE_DOE) & sc->eemask
abbrev pub start_lines : ℕ → ℕ
start_lines eemask = bit_and 0x86000000 eemask

-- (EE_CS | EE_SK | EE_DI | EE_DOE) & sc->eemask
abbrev pub all_lines : ℕ → ℕ
all_lines eemask = bit_and 0x87000000 eemask

abbrev pub with_data : ℕ → ℕ → ℕ → ℕ → ℕ
with_data eemask bits n cn =
    if bit_and bits (2 ^ n) == 0
    then bit_and cn (not32 (data_lines eemask))
    else bit_or cn (data_lines eemask)

-- eeprom_put_bits; the result is the new *cntrl
unfoldable pub put_bits : ℕ → ℕ → ℕ → M ℕ
put_bits cn bits zero = pure cn
put_bits cn bits (suc n) = do
  eemask ← gets (λ sc. sc.eemask)
  let low = bit_and (with_data eemask bits n cn) (not32 ee_sk)
  write plx_cntrl low
  write plx_cntrl (bit_or low ee_sk)
  put_bits (bit_or low ee_sk) bits n

-- eeprom_start_cmd
unfoldable pub start_cmd : M ℕ
start_cmd = do
  cn ← read plx_cntrl
  eemask ← gets (λ sc. sc.eemask)
  let cn' = bit_or (bit_and cn (not32 ee_sk)) (start_lines eemask)
  write plx_cntrl cn'
  write plx_cntrl (bit_or cn' ee_sk)
  pure (bit_or cn' ee_sk)

-- eeprom_end_cmd
unfoldable pub end_cmd : ℕ → M (Unit {0})
end_cmd cn = do
  eemask ← gets (λ sc. sc.eemask)
  write plx_cntrl (bit_and cn (not32 (all_lines eemask)))

-- eeprom_cmd_write_enable; the address length is unsigned
unfoldable pub cmd_write_enable : M (Unit {0})
cmd_write_enable = do
  len ← gets (λ sc. sc.eeprom_addr_len)
  c0 ← start_cmd
  c1 ← put_bits c0 0x3 4
  c2 ← put_bits c1 0 ((len + 2 ^ 32 - 2) % 2 ^ 32)
  end_cmd c2

-- eeprom_cmd_write_disable
unfoldable pub cmd_write_disable : M (Unit {0})
cmd_write_disable = do
  len ← gets (λ sc. sc.eeprom_addr_len)
  c0 ← start_cmd
  c1 ← put_bits c0 0 ((len + 2) % 2 ^ 32)
  end_cmd c1

-- time_before on the 32-bit jiffies
abbrev pub time_before : ℕ → ℕ → Bool
time_before a b = leb (2 ^ 31) ((a + 2 ^ 32 - b) % 2 ^ 32)

-- One round of the loop of eeprom_wait_prog after its read: it ends on DO, or when the time is up.
unfoldable pub ready_or : ℕ → ℕ → M (ℕ × ℕ) → M (ℕ × ℕ)
ready_or cn timeout again d w =
    if bit_and cn ee_do == 0
    then (do
      now ← read jiffies
      λ d' w'. if time_before now timeout then again d' w' else some ((eio, cn), w'))
        d w
    else (do write plx_cntrl (bit_or cn ee_sk); pure (0, bit_or cn ee_sk)) d w

-- The loop of eeprom_wait_prog: the code, and the last value of cn.
unfoldable pub wait_ready : ℕ → ℕ → M (ℕ × ℕ)
unfolding ready_or
wait_ready zero timeout d w = none
wait_ready (suc n) timeout d w =
    let again = wait_ready n timeout in (do cn ← read plx_cntrl; ready_or cn timeout again) d w

-- eeprom_wait_prog
unfoldable pub wait_prog : M ℕ
wait_prog = do
  hz ← ask (λ d. d.hz)
  cn ← read plx_cntrl
  eemask ← gets (λ sc. sc.eemask)
  write plx_cntrl (bit_or (bit_and cn (not32 ee_sk)) (start_lines eemask))
  start ← read jiffies
  rounds ← ask (λ d. d.patience)
  (retval, cn') ← wait_ready rounds ((1 + (50 * hz + 999) / 1000 + start) % 2 ^ 32)
  write plx_cntrl (bit_and cn' (not32 (all_lines eemask)))
  pure retval

-- eeprom_cmd_write_word up to eeprom_end_cmd
unfoldable pub send_word : ℕ → ℕ → M (Unit {0})
send_word offset word = do
  len ← gets (λ sc. sc.eeprom_addr_len)
  c0 ← start_cmd
  c1 ← put_bits c0 0x1 2
  c2 ← put_bits c1 offset len
  c3 ← put_bits c2 word 16
  end_cmd c3

-- eeprom_cmd_write_word
unfoldable pub cmd_write_word : ℕ → ℕ → M ℕ
cmd_write_word offset word = do send_word offset word; wait_prog

-- The 32 rounds that eeprom_cmd_read_word clocks in, most significant bit first: the last *cntrl
-- and the word.
unfoldable pub clock_in : ℕ → ℕ → ℕ → M (ℕ × ℕ)
clock_in zero cn word = pure (cn, word)
clock_in (suc n) cn word = do
  let low = bit_and cn (not32 ee_sk)
  write plx_cntrl low
  write plx_cntrl (bit_or low ee_sk)
  cn' ← read plx_cntrl
  let word' = word * 2 % 2 ^ 32
  clock_in n cn' (if bit_and cn' ee_do == 0 then word' else bit_or word' 1)

-- The reading half of eeprom_cmd_read_word, unless the dummy bit is 1: the code, the last *cntrl,
-- and the word, `old` if none was read.
unfoldable pub receive : ℕ → ℕ → M (ℕ × ℕ × ℕ)
receive cn old d w =
    if bit_and cn ee_do == 0
    then (do
      eemask ← gets (λ sc. sc.eemask)
      (cn', word) ← clock_in 32 (bit_or cn (data_lines eemask)) 0
      pure (0, cn', word))
        d w
    else some ((eio, cn, old), w)

-- eeprom_cmd_read_word; the result is the code and *data, whose old value is `old`
unfoldable pub cmd_read_word : ℕ → ℕ → M (ℕ × ℕ)
cmd_read_word offset old = do
  len ← gets (λ sc. sc.eeprom_addr_len)
  c0 ← start_cmd
  c1 ← put_bits c0 0x2 2
  c2 ← put_bits c1 offset len
  cn ← read plx_cntrl
  (retval, cn', word) ← receive cn old
  end_cmd cn'
  pure (retval, word)
