-- ===== src/Dsp/Code.antt =====
-- The DSP of the VME and CAMAC controllers: sis3100/sis1100-2.13/src/sis1100_dsp.c. An instruction
-- of the DSP has 48 bits, six bytes in user memory with the highest one first. A negative size is
-- refused by access_ok, as a size that is too large.
use mdaq_midas.Common.{
  ℕ, zero, suc, ◌+◌, ◌/◌, ◌%◌, ◌^◌, bit_and, bit_or, ◌==◌, Bool, true, false, not, if◌then◌else◌,
  none, some,
}
use mdaq_midas.Bus.{
  M, pure, ◌>>=◌, ◌>>◌, read, write, lock, unlock, hw_vme, hw_camac, byte, word, sem_hw, t_hdr,
  t_dal, t_adl, raw_tc_dal, read_prot_error, dsp_sc,
}
use mdaq_midas.Remote.{remote_reg_write, shl32, tmp_read, tmp_write}
use mdaq_midas.Eeprom.{eio, efault}
use mdaq_midas.Vme.{enxio, einval}

-- struct sis1100_dsp_code
pub record DspCode : Type 0 where
  pub src : ℕ
  pub dst : ℕ
  pub size : ℕ

-- `v[0]` to `v[5]`
pub record Instruction : Type 0 where
  pub v0 : ℕ
  pub v1 : ℕ
  pub v2 : ℕ
  pub v3 : ℕ
  pub v4 : ℕ
  pub v5 : ℕ

abbrev pub enotty : ℕ
enotty = 25

abbrev pub sharc_sram : ℕ
sharc_sram = 0x81200000

abbrev pub sharc_d48 : ℕ
sharc_d48 = 0x81300000

abbrev dsp_run : ℕ
dsp_run = 0x100

abbrev dsp_boot_ctrl : ℕ
dsp_boot_ctrl = 0x800

-- The two writes to dsp_sc of sis1100_dsp_reset and sis1100_dsp_start.
unfoldable pub dsp_control : ℕ → M ℕ
dsp_control command d w =
    let go : M ℕ = (do
      lock sem_hw
      first ← remote_reg_write dsp_sc dsp_boot_ctrl true
      error ← remote_reg_write dsp_sc command true
      unlock sem_hw
      pure (if error == 0 then 0 else eio)) in
    if not w.sc.dsp_present
    then some (enxio, w)
    else elim w.sc.remote_hw [ hw_vme ↦ go d w | hw_camac ↦ go d w | _ ↦ some (enotty, w) ]

-- sis1100_dsp_reset
abbrev pub dsp_reset : M ℕ
unfolding dsp_control
dsp_reset = dsp_control (shl32 dsp_run 16)

-- sis1100_dsp_start
abbrev pub dsp_start : M ℕ
unfolding dsp_control
dsp_start = dsp_control dsp_run

-- write_to_dsp
unfoldable pub write_to_dsp : ℕ → ℕ → M ℕ
write_to_dsp addr data_ = do
  write t_hdr 0x0f060402
  write t_dal data_
  write t_adl addr
  read_prot_error

-- read_from_dsp: the error and the value
unfoldable pub read_from_dsp : ℕ → M (ℕ × ℕ)
read_from_dsp addr = do
  write t_hdr 0x0f060002
  write t_adl addr
  error ← read_prot_error
  v ← read raw_tc_dal
  pure (error, v)

-- A byte of user memory in a u_int8_t.
abbrev pub get_byte : ℕ → M ℕ
get_byte a = do v ← read (byte a); pure (v % 2 ^ 8)

-- The first inner loop of sis1100_dsp_load.
unfoldable pub get_instruction : ℕ → M Instruction
get_instruction code = do
  a ← get_byte code
  b ← get_byte (code + 1)
  c ← get_byte (code + 2)
  e ← get_byte (code + 3)
  f ← get_byte (code + 4)
  g ← get_byte (code + 5)
  pure (record { v0 = a; v1 = b; v2 = c; v3 = e; v4 = f; v5 = g })

-- `w0` and `w12`
abbrev pub low_word : Instruction → ℕ
low_word v = bit_or v.v5 (shl32 v.v4 8)

abbrev pub high_word : Instruction → ℕ
high_word v = bit_or (bit_or (bit_or v.v3 (shl32 v.v2 8)) (shl32 v.v1 16)) (shl32 v.v0 24)

unfoldable pub load_instruction : ℕ → ℕ → M ℕ
load_instruction code addr = do
  v ← get_instruction code
  lock sem_hw
  e1 ← write_to_dsp sharc_d48 (low_word v)
  e2 ← write_to_dsp addr (high_word v)
  unlock sem_hw
  pure (bit_or e1 e2)

-- The loop of sis1100_dsp_load, with n instructions to go: it stops at an error.
unfoldable pub load_loop : ℕ → ℕ → ℕ → M ℕ
load_loop zero code addr = pure 0
load_loop (suc n) code addr = do
  error ← load_instruction code addr
  λ d w.
      let rest = load_loop n (code + 6) ((addr + 4) % 2 ^ 32) d w in
      if error == 0 then rest else some (error, w)

-- The guards of the transfers: the DSP is there if it is asked for, whole words, and user memory.
unfoldable pub guarded : Bool → ℕ → DspCode → M ℕ → M ℕ
guarded asks unit code body d w =
    if asks
    then some (enxio, w)
    else if not (code.dst % 4 == 0)
    then some (einval, w)
    else if not (code.size % unit == 0)
    then some (einval, w)
    else if not (d.access_ok code.src code.size)
    then some (efault, w)
    else body d w

abbrev pub start_address : DspCode → ℕ
start_address code = (code.dst + sharc_sram) % 2 ^ 32

-- sis1100_dsp_load
unfoldable pub dsp_load : DspCode → M ℕ
unfolding guarded
dsp_load code d w =
    guarded (not w.sc.dsp_present) 6 code
      (do
        error ← load_loop (code.size / 6) code.src (start_address code)
        pure (if error == 0 then 0 else eio))
      d w

-- `v[0]` to `v[5]`, from `w0` and `w12`
abbrev pub split_words : ℕ → ℕ → Instruction
split_words w0 w12 = record {
  v0 = bit_and (w12 / 2 ^ 24) 0xff;
  v1 = bit_and (w12 / 2 ^ 16) 0xff;
  v2 = bit_and (w12 / 2 ^ 8) 0xff;
  v3 = bit_and w12 0xff;
  v4 = bit_and (w0 / 2 ^ 8) 0xff;
  v5 = bit_and w0 0xff;
}

-- The second inner loop of sis1100_dsp_read.
unfoldable pub put_instruction : ℕ → Instruction → M (Unit {0})
put_instruction code v = do
  write (byte code) v.v0
  write (byte (code + 1)) v.v1
  write (byte (code + 2)) v.v2
  write (byte (code + 3)) v.v3
  write (byte (code + 4)) v.v4
  write (byte (code + 5)) v.v5

unfoldable pub fetch_instruction : ℕ → ℕ → M ℕ
fetch_instruction code addr = do
  lock sem_hw
  (e1, w12) ← read_from_dsp addr
  (e2, w0) ← read_from_dsp sharc_d48
  unlock sem_hw
  put_instruction code (split_words w0 w12)
  pure (bit_or e1 e2)

-- The loop of sis1100_dsp_read, with n instructions to go.
unfoldable pub read_code_loop : ℕ → ℕ → ℕ → M ℕ
read_code_loop zero code addr = pure 0
read_code_loop (suc n) code addr = do
  error ← fetch_instruction code addr
  λ d w.
      let rest = read_code_loop n (code + 6) ((addr + 4) % 2 ^ 32) d w in
      if error == 0 then rest else some (error, w)

-- sis1100_dsp_read
unfoldable pub dsp_read : DspCode → M ℕ
unfolding guarded
dsp_read code d w =
    guarded (not w.sc.dsp_present) 6 code
      (do
        error ← read_code_loop (code.size / 6) code.src (start_address code)
        pure (if error == 0 then 0 else eio))
      d w

-- The loop of sis1100_dsp_wr, with n words to go.
unfoldable pub wr_loop : ℕ → ℕ → ℕ → M ℕ
wr_loop zero code addr = pure 0
wr_loop (suc n) code addr = do
  dat ← read (word code)
  error ← tmp_write addr none 4 6 dat
  λ d w.
      let rest = wr_loop n (code + 4) ((addr + 4) % 2 ^ 32) d w in
      if error == 0 then rest else some (eio, w)

-- sis1100_dsp_wr
unfoldable pub dsp_wr : DspCode → M ℕ
unfolding guarded
dsp_wr code d w =
    guarded (not w.sc.dsp_present) 4 code (wr_loop (code.size / 4) code.src (start_address code)) d
      w

-- The loop of sis1100_dsp_rd, with n words to go.
unfoldable pub rd_loop : ℕ → ℕ → ℕ → M ℕ
rd_loop zero code addr = pure 0
rd_loop (suc n) code addr = do
  (error, dat) ← tmp_read addr none 4 6 0
  λ d w.
      let rest = (do write (word code) dat; rd_loop n (code + 4) ((addr + 4) % 2 ^ 32)) d w in
      if error == 0 then rest else some (eio, w)

-- sis1100_dsp_rd, which does not ask whether there is a DSP
unfoldable pub dsp_rd : DspCode → M ℕ
unfolding guarded
dsp_rd code = guarded false 4 code (rd_loop (code.size / 4) code.src (start_address code))
