-- ===== src/Setup/Init.antt =====
-- sis1100_init_remote.c, sis1100_update_swapping of sis1100_init.c and sis1100_synch_handler.c
-- (sis3100/sis1100-2.13/src).
use mdaq_midas.Common.{
  ℕ, bit_and, bit_or, not32, ltb, ◌==◌, Bool, true, false, not, if◌then◌else◌, some,
}
use mdaq_midas.Bus.{
  M, Port, pure, ◌>>=◌, ◌>>◌, read, write, lock, unlock, gets, modify, when, Softc, HwType,
  hw_invalid, hw_pci, hw_vme, hw_camac, hw_lvd, hw_pandapixel, hw_psf4ad, sem_hw, sr, cr, p_balance,
  prot_error, plx,
}
use mdaq_midas.Remote.{remote_reg_read}
use mdaq_midas.Irq.{enable_irq}
use mdaq_midas.Ddma.{flush_fifo}
use mdaq_midas.Vme.{minus_one}
use mdaq_midas.Setup.Sides.{
  sis1100rem_init, sis3100rem_init, sis5100rem_init, zellvd_rem_init, pandapixel_rem_init,
  psf4ad_rem_init,
}

-- BIGEND_LMISC_PROT_AREA
abbrev plx_bigend : Port
plx_bigend = plx 0x0c

-- sis1100_set_swapping
unfoldable pub set_swapping : Bool → M (Unit {0})
set_swapping swap = do
  tmp ← read plx_bigend
  write cr (if swap then 0x8 else 0x80000)
  write plx_bigend (if swap then bit_or tmp 0xc0 else bit_and tmp (not32 0xc0))

-- sis1100_update_swapping, on a little-endian machine
unfoldable pub update_swapping : M (Unit {0})
unfolding set_swapping
update_swapping = do
  big ← gets (λ sc. sc.remote_big_endian)
  wanted ← gets (λ sc. sc.user_wants_swap)
  set_swapping (if wanted then not big else big)

abbrev pub set_endian : Bool → Softc → Softc
set_endian big sc = record sc { remote_big_endian = big }

-- The switch of sis1100_init_remote.
unfoldable pub init_side : ℕ → ℕ → M ℕ
init_side typ reset d w =
    if typ == 1
    then (do res ← sis1100rem_init reset; modify (set_endian true); pure res) d w
    else if typ == 2
    then (do res ← sis3100rem_init reset; modify (set_endian true); pure res) d w
    else if typ == 3
    then (do res ← sis5100rem_init reset; modify (set_endian true); pure res) d w
    else if typ == 4
    then (do res ← zellvd_rem_init reset; modify (set_endian false); pure res) d w
    else if typ == 5
    then (do res ← pandapixel_rem_init reset; modify (set_endian false); pure res) d w
    else if typ == 6
    then (do res ← psf4ad_rem_init reset; modify (set_endian false); pure res) d w
    else (do modify (set_endian true); pure minus_one) d w

-- `sc->remote_hw=typ`
abbrev pub hw_of : ℕ → HwType
hw_of typ =
    if typ == 1
    then hw_pci
    else if typ == 2
    then hw_vme
    else if typ == 3
    then hw_camac
    else if typ == 4
    then hw_lvd
    else if typ == 5
    then hw_pandapixel
    else if typ == 6
    then hw_psf4ad
    else hw_invalid

abbrev pub identified : ℕ → Softc → Softc
identified ident sc = record sc { remote_ident = ident; dsp_present = false; ram_size = 0 }

-- What is done when the identification has been read.
unfoldable pub set_up : ℕ → ℕ → M (Unit {0})
set_up reset ident = do
  modify (identified ident)
  let typ = bit_and ident 0xff
  res ← init_side typ reset
  when (res == 0) do update_swapping; modify (λ sc. record sc { remote_hw = hw_of typ })

-- The link is cleared, and the other side asked what it is: the error and the identification.
unfoldable pub clear_and_ask : M (ℕ × ℕ)
clear_and_ask = do
  res ← flush_fifo
  write p_balance 0
  old ← read prot_error
  remote_reg_read 0 true

-- The second attempt, after a reset.
unfoldable pub ask_again : ℕ → ℕ → M (ℕ × ℕ)
ask_again res ident d w =
    if res == 0 then some ((res, ident), w) else (do write cr 0x10000; clear_and_ask) d w

abbrev no_link : ℕ
no_link = 0x101

-- sis1100_init_remote. The flushing of the FIFO always returns 0.
unfoldable pub init_remote : ℕ → M (Unit {0})
init_remote reset = do
  lock sem_hw
  when (ltb 1 reset) (write cr 0x10000)
  (res, ident) ← clear_and_ask
  when (not (res == no_link))
      do (res, ident) ← ask_again res ident; when (res == 0) (set_up reset ident)
  unlock sem_hw

-- sis1100_synch_handler, which always returns 0
unfoldable pub synch_handler : M ℕ
synch_handler = do
  enable_irq 0 0x8110
  status ← read sr
  when (bit_and status 3 == 3) (init_remote 0)
  pure 0
