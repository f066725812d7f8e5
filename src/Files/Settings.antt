-- ===== src/Files/Settings.antt =====
-- The requests of sis3100/sis1100-2.13/src/sis1100_ioctl.c that read and change the settings of an
-- open file or of the driver. A request gives its code and what the kernel copies back to the caller.
-- A negative number in a request is `none`.
use mdaq_midas.Common.{
  ℕ, ◌/◌, ◌^◌, bit_and, ◌==◌, ◌||◌, Bool, not, if◌then◌else◌, Option, none, some,
}
use mdaq_midas.Bus.{
  M, pure, ◌>>=◌, ◌>>◌, read, gets, modify, Softc, Subdev, subdev_ram, subdev_remote, subdev_ctrl,
  subdev_dsp, hw_eq, hw_invalid, sr,
}
use mdaq_midas.Vme.{einval}
use mdaq_midas.Setup.{update_swapping}

-- The settings in struct sis1100_fdata.
pub record Settings : Type 0 where
  pub mindmalen_r : ℕ
  pub mindmalen_w : ℕ
  pub minpipelen_r : ℕ
  pub minpipelen_w : ℕ
  pub subdev : Subdev
  pub vmespace_am : Option ℕ
  pub vmespace_datasize : ℕ
  pub fifo_mode : Bool
  pub last_prot_err : ℕ

-- struct vmespace
pub record VmeSpace : Type 0 where
  pub am : Option ℕ
  pub datasize : ℕ
  pub swap : Option ℕ
  pub mindmalen : Option ℕ

-- struct sis1100_ident_dev
pub record IdentDev : Type 0 where
  pub hw_type : ℕ
  pub hw_version : ℕ
  pub fw_type : ℕ
  pub fw_version : ℕ

-- A C truth value.
abbrev pub truth : ℕ → Bool
truth n = not (n == 0)

-- `if (d>=0) x=d`
abbrev pub given_or : {A : Type 0} → Option A → A → A
given_or none old = old
given_or (some v) old = v

-- ioctl_mindmalen: the old lengths, and the settings
abbrev pub ioctl_mindmalen : Settings → Option ℕ → Option ℕ → (ℕ × ℕ) × Settings
ioctl_mindmalen s r w = (
  (s.mindmalen_r, s.mindmalen_w),
  record s { mindmalen_r = given_or r s.mindmalen_r; mindmalen_w = given_or w s.mindmalen_w },
)

-- ioctl_minpipelen
abbrev pub ioctl_minpipelen : Settings → Option ℕ → Option ℕ → (ℕ × ℕ) × Settings
ioctl_minpipelen s r w = (
  (s.minpipelen_r, s.minpipelen_w),
  record s { minpipelen_r = given_or r s.minpipelen_r; minpipelen_w = given_or w s.minpipelen_w },
)

-- ioctl_fifomode
abbrev pub ioctl_fifomode : Settings → Option ℕ → Bool × Settings
ioctl_fifomode s none = (s.fifo_mode, s)
ioctl_fifomode s (some m) = (s.fifo_mode, record s { fifo_mode = truth m })

-- ioctl_last_error
abbrev pub ioctl_last_error : Settings → ℕ
ioctl_last_error s = s.last_prot_err

-- ioctl_devtype
abbrev pub ioctl_devtype : Settings → Subdev
ioctl_devtype s = s.subdev

-- `sc->user_wants_swap=swap; sis1100_update_swapping(sc);`
abbrev pub wants_swap : ℕ → M (Unit {0})
wants_swap swap = do modify (λ sc. record sc { user_wants_swap = truth swap }); update_swapping

-- `if (d->swap>=0)`
abbrev pub if_swap : Option ℕ → M (Unit {0})
if_swap none = pure tt
if_swap (some swap) = wants_swap swap

-- ioctl_setvmespace: the code and the settings
unfoldable pub ioctl_setvmespace : Settings → VmeSpace → M (ℕ × Settings)
ioctl_setvmespace s req d w =
    if not (req.datasize == 1 || req.datasize == 2 || req.datasize == 4)
    then some ((einval, s), w)
    else (do
      if_swap req.swap
      pure (
        0,
        record s {
          vmespace_am = req.am;
          vmespace_datasize = req.datasize;
          mindmalen_r = given_or req.mindmalen s.mindmalen_r;
          mindmalen_w = given_or req.mindmalen s.mindmalen_w;
        },
      ))
        d w

-- ioctl_swap: the old setting, as a truth value
unfoldable pub ioctl_swap : ℕ → M Bool
ioctl_swap swap = do old ← gets (λ sc. sc.user_wants_swap); wants_swap swap; pure old

-- ioctl_mapsize; the lengths of the two windows of the board are the kernel's.
abbrev pub ioctl_mapsize : ℕ → ℕ → Softc → Settings → ℕ
ioctl_mapsize remote_window ctrl_window sc s = elim s.subdev [
  | subdev_remote ↦ remote_window
  | subdev_ram ↦ if hw_eq sc.remote_hw hw_invalid then 0 else sc.ram_size
  | subdev_ctrl ↦ ctrl_window
  | subdev_dsp ↦ 0
]

abbrev pub ident_dev : ℕ → IdentDev
ident_dev ident = record {
  hw_type = bit_and ident 0xff;
  hw_version = bit_and (ident / 2 ^ 8) 0xff;
  fw_type = bit_and (ident / 2 ^ 16) 0xff;
  fw_version = bit_and (ident / 2 ^ 24) 0xff;
}

-- ioctl_ident, where `local_ident` is the one that sis1100_init has read: the two sides, and whether
-- the other one is set up and whether the link is up
unfoldable pub ioctl_ident : ℕ → M (IdentDev × IdentDev × Bool × Bool)
ioctl_ident local_ident = do
  far ← gets (λ sc. sc.remote_ident)
  hw ← gets (λ sc. sc.remote_hw)
  status ← read sr
  pure (ident_dev local_ident, ident_dev far, not (hw_eq hw hw_invalid), bit_and status 3 == 3)
