-- ===== src/Eeprom/Words.antt =====
-- The transfers of sis1100_eeprom.c. `data` is an address of 16-bit words; only user memory is
-- checked for access.
use mdaq_midas.Common.{
  ℕ, zero, suc, ◌+◌, ◌-◌, ◌*◌, ◌/◌, ◌%◌, ◌^◌, bit_and, ◌==◌, Bool, not, ◌&&◌, if◌then◌else◌, some,
  Option, none,
}
use mdaq_midas.Bus.{
  M, pure, ◌>>=◌, ◌>>◌, read, write, lock, unlock, when, gets, ask, modify, Softc, half, sem_hw,
}
use mdaq_midas.Eeprom.Bits.{
  plx9050_eemask, plx9056_eemask, eio, cmd_write_enable, cmd_write_disable, cmd_write_word,
  cmd_read_word,
}

abbrev pub efault : ℕ
efault = 14

-- The words of sis1100_write_eeprom_, up to the first that fails. The address is a u_int8_t.
unfoldable pub write_words : ℕ → ℕ → ℕ → M ℕ
write_words zero addr src = pure 0
write_words (suc n) addr src =
    let rest = write_words n ((addr + 1) % 2 ^ 8) (src + 2) in
    do
      word ← read (half src)
      res ← cmd_write_word addr (word % 2 ^ 16)
      λ d w. if res == 0 then rest d w else some (res, w)

unfoldable pub blocked : Bool → ℕ → ℕ → M Bool
blocked userspace data_ num = ask (λ d. userspace && not (d.access_ok data_ (num * 2)))

-- sis1100_write_eeprom_
unfoldable pub write_eeprom_ : ℕ → ℕ → ℕ → Bool → M ℕ
unfolding blocked
write_eeprom_ num addr data_ userspace = do
  fault ← blocked userspace data_ num
  λ d w.
      if fault
      then some (efault, w)
      else (do
        lock sem_hw
        cmd_write_enable
        res ← write_words num addr data_
        when (res == 0) cmd_write_disable
        unlock sem_hw
        pure res)
          d w

-- One word of sis1100_read_eeprom_: the new cache and the word. `next` is cached_addr + 1, which is
-- 0 as long as nothing is cached; the code of the read is not looked at.
unfoldable pub cached_word : ℕ → ℕ → ℕ → M (ℕ × ℕ × ℕ)
cached_word addr next cache d w =
    if addr % 2 == 1
    then if next == addr
      then some ((next, cache, bit_and cache 0xffff), w)
      else (do
        (res, cache') ← cmd_read_word (addr - 1) cache
        pure (addr, cache', bit_and cache' 0xffff))
          d w
    else (do
      (res, cache') ← cmd_read_word addr cache
      pure (addr + 1, cache', bit_and (cache' / 2 ^ 16) 0xffff))
        d w

unfoldable pub read_words : ℕ → ℕ → ℕ → ℕ → ℕ → M (Unit {0})
read_words zero addr dst next cache = pure tt
read_words (suc n) addr dst next cache = do
  (next', cache', word) ← cached_word addr next cache
  write (half dst) word
  read_words n ((addr + 1) % 2 ^ 8) (dst + 2) next' cache'

-- sis1100_read_eeprom_; `cache` is what the uninitialised local holds
unfoldable pub read_eeprom_ : ℕ → ℕ → ℕ → ℕ → Bool → M ℕ
unfolding blocked
read_eeprom_ cache num addr data_ userspace = do
  fault ← blocked userspace data_ num
  λ d w.
      if fault
      then some (efault, w)
      else (do lock sem_hw; read_words num addr data_ 0 cache; unlock sem_hw; pure 0) d w

-- The switch of sis1100_read_eeprom and sis1100_write_eeprom.
unfoldable pub on_bridge : M ℕ → M ℕ
on_bridge run = do
  id ← gets (λ sc. sc.silicon_id)
  λ d w.
      if id == 0x905410b5
      then (do modify (λ sc. record sc { eemask = plx9050_eemask; eeprom_addr_len = 8 }); run) d w
      else if id == 0x905610b5
      then (do modify (λ sc. record sc { eemask = plx9056_eemask; eeprom_addr_len = 8 }); run) d w
      else some (eio, w)

-- sis1100_read_eeprom
unfoldable pub read_eeprom : ℕ → ℕ → ℕ → ℕ → Bool → M ℕ
unfolding on_bridge
read_eeprom cache num addr data_ userspace = on_bridge (read_eeprom_ cache num addr data_ userspace)

-- sis1100_write_eeprom
unfoldable pub write_eeprom : ℕ → ℕ → ℕ → Bool → M ℕ
unfolding on_bridge
write_eeprom num addr data_ userspace = on_bridge (write_eeprom_ num addr data_ userspace)

-- sis1100_end_of_eeprom; `none` is -1
unfoldable pub end_of_eeprom : Softc → Option ℕ
end_of_eeprom sc =
    if sc.silicon_id == 0x905410b5
    then some 0x2c
    else if sc.silicon_id == 0x905610b5
    then some 0x32
    else none
