-- ===== src/Setup/Sides.antt =====
-- The setup of each kind of other side: sis1100rem_init.c, sis3100rem_init.c, sis5100rem_init.c,
-- zellvd_rem_init.c, pandapixel_rem_init.c and psf4ad_rem_init.c of sis3100/sis1100-2.13/src. Each
-- returns 0, or the pattern of -1. `reset` is 0, 1 or 2.
use mdaq_midas.Common.{
  ℕ, ◌/◌, ◌^◌, bit_and, bit_or, not32, ltb, ◌==◌, ◌||◌, Bool, true, false, not, if◌then◌else◌,
  Option, none, some,
}
use mdaq_midas.Bus.{M, pure, ◌>>=◌, ◌>>◌, gets, modify, when, skip, Softc, dsp_sc, vme_irq_sc}
use mdaq_midas.Remote.{remote_reg_read, remote_reg_write, shl32}
use mdaq_midas.Irq.{put_far}
use mdaq_midas.Vme.{minus_one}
use mdaq_midas.Setup.Sdram.{init_sdram, set_ram}

abbrev vme_master_sc : ℕ
vme_master_sc = 0x100

-- What the identification says: the kind of hardware and firmware, the firmware's version.
abbrev pub kind : ℕ → ℕ
kind ident = bit_and ident 0x00ffff00

abbrev pub version : ℕ → ℕ
version ident = bit_and (ident / 2 ^ 24) 0xff

-- 0 if the version is at least `least`.
abbrev pub at_least : ℕ → ℕ → ℕ
at_least least ident = if ltb (version ident) least then minus_one else 0

-- sis1100rem_init
unfoldable pub sis1100rem_init : ℕ → M ℕ
sis1100rem_init reset = do
  ident ← gets (λ sc. sc.remote_ident)
  pure (
      if kind ident == 0x00010100
      then at_least 4 ident
      else if kind ident == 0x00010200 || kind ident == 0x00020200
      then at_least 1 ident
      else minus_one)

-- sis3100_dsp_present and sis5100_dsp_present
unfoldable pub has_dsp : M Bool
has_dsp = do
  (res, v) ← remote_reg_read dsp_sc true
  pure (if res == 0 then not (bit_and v 0x1000000 == 0) else false)

abbrev pub set_dsp : Bool → Softc → Softc
set_dsp present sc = record sc { dsp_present = present }

abbrev pub berr_time : ℕ → ℕ
berr_time timer =
    if timer == 0 then 1250 else if timer == 1 then 6250 else if timer == 2 then 12500 else 100000

abbrev pub long_time : ℕ → ℕ
long_time timer =
    if timer == 0 then 1 else if timer == 1 then 10 else if timer == 2 then 50 else 100

-- sis3100_get_timeouts: the error, *berr and *arb
unfoldable pub sis3100_get_timeouts : M (ℕ × ℕ × ℕ)
sis3100_get_timeouts = do
  (error, stat) ← remote_reg_read vme_master_sc true
  pure (
      if error == 0
      then (0, berr_time (bit_and (stat / 2 ^ 14) 3), long_time (bit_and (stat / 2 ^ 12) 3))
      else (error, 0, 0))

abbrev pub berr_timer : ℕ → ℕ
berr_timer t = if ltb 12500 t then 3 else if ltb 6250 t then 2 else if ltb 1250 t then 1 else 0

abbrev pub long_timer : ℕ → ℕ
long_timer t = if ltb 50 t then 3 else if ltb 10 t then 2 else if ltb 1 t then 1 else 0

-- The digits that set and those that clear a timer at digit k.
abbrev pub timer_bits : ℕ → ℕ → ℕ
timer_bits k timer = shl32 (bit_or timer (shl32 (bit_and (not32 timer) 3) 16)) k

abbrev pub with_timer : ℕ → (ℕ → ℕ) → Option ℕ → ℕ → ℕ
with_timer k timer none bits = bits
with_timer k timer (some t) bits = bit_or bits (timer_bits k (timer t))

-- sis3100_set_timeouts; a negative time is `none`. The times are read back to be printed.
unfoldable pub sis3100_set_timeouts : Option ℕ → Option ℕ → M ℕ
sis3100_set_timeouts berr arb = do
  (res, bits) ← remote_reg_read vme_master_sc true
  λ d w.
      let all = with_timer 12 long_timer arb (with_timer 14 berr_timer berr bits) in
      if not (res == 0)
      then some (res, w)
      else if all == 0
      then some (res, w)
      else (do
        error ← remote_reg_write vme_master_sc all true
        times ← sis3100_get_timeouts
        pure error)
          d w

-- The VME controller's interrupts and times.
unfoldable pub reset_vme : M (Unit {0})
reset_vme = do
  put_far vme_irq_sc 0x00fe0001
  put_far vme_master_sc 8
  res ← sis3100_set_timeouts (some 5000) (some 10)
  skip

-- The memory and the DSP of the VME controller.
unfoldable pub equip_vme : ℕ → M (Unit {0})
equip_vme ident d w =
    if kind ident == 0x00010100
    then (do res ← init_sdram; present ← has_dsp; modify (set_dsp present)) d w
    else (do modify (set_ram 0); modify (set_dsp false)) d w

-- sis3100rem_init
unfoldable pub sis3100rem_init : ℕ → M ℕ
sis3100rem_init reset = do
  ident ← gets (λ sc. sc.remote_ident)
  λ d w.
      let res =
        if kind ident == 0x00010100
        then at_least 3 ident
        else if kind ident == 0x00010200 || kind ident == 0x00210200
        then at_least 1 ident
        else minus_one in
      if res == 0
      then (do
        when (ltb 0 reset) reset_vme
        equip_vme ident
        stat ← remote_reg_read vme_master_sc true
        pure 0)
          d w
      else some (res, w)

-- sis5100rem_init
unfoldable pub sis5100rem_init : ℕ → M ℕ
sis5100rem_init reset = do
  ident ← gets (λ sc. sc.remote_ident)
  λ d w.
      let res =
        if kind ident == 0x00010100 || kind ident == 0x00020100
        then at_least 1 ident
        else minus_one in
      if res == 0
      then (do present ← has_dsp; modify (set_dsp present); pure 0) d w
      else some (res, w)

-- zellvd_rem_init
unfoldable pub zellvd_rem_init : ℕ → M ℕ
zellvd_rem_init reset = do
  ident ← gets (λ sc. sc.remote_ident)
  λ d w.
      let res =
        if kind ident == 0x00010100
        then at_least 1 ident
        else if kind ident == 0x00010200
        then at_least 17 ident
        else if kind ident == 0x00010300
        then at_least 1 ident
        else minus_one in
      if res == 0 then (do when (ltb 0 reset) (put_far 8 0); pure 0) d w else some (res, w)

-- pandapixel_rem_init: other hardware than version 1 is reported and accepted.
unfoldable pub pandapixel_rem_init : ℕ → M ℕ
pandapixel_rem_init reset = do
  ident ← gets (λ sc. sc.remote_ident)
  λ d w.
      let res = if bit_and (ident / 2 ^ 8) 0xff == 1 then at_least 16 ident else 0 in
      if res == 0
      then (do modify (set_dsp false); when (ltb 0 reset) (put_far 8 0); pure 0) d w
      else some (res, w)

-- psf4ad_rem_init; no version is less than 0.
unfoldable pub psf4ad_rem_init : ℕ → M ℕ
psf4ad_rem_init reset = do modify (set_dsp false); pure 0
