-- ===== src/Files/Seek.antt =====
-- The position of a device file: sis3100/sis1100-2.13/src/sis1100_llseek_linux.c. A loff_t is its
-- 64-bit pattern, and so is the result.
use mdaq_midas.Common.{
  ℕ, ◌+◌, ◌-◌, ◌%◌, ◌^◌, ◌==◌, ◌||◌, ltb, leb, if◌then◌else◌, Option, none, some,
}
use mdaq_midas.Bus.{Softc, Subdev, subdev_ram, hw_eq, hw_invalid}

-- `-EINVAL`
abbrev pub minus_einval : ℕ
minus_einval = 2 ^ 64 - 22

abbrev pub seek_set : ℕ
seek_set = 0

abbrev pub seek_cur : ℕ
seek_cur = 1

abbrev pub seek_end : ℕ
seek_end = 2

-- The highest position.
abbrev pub limit : Softc → Subdev → ℕ
limit sc subdev_ram = sc.ram_size
limit sc _ = 0xffffffff

-- SEEK_END
abbrev pub from_end : Softc → Subdev → ℕ → Option ℕ
from_end sc subdev_ram offset =
    some (if hw_eq sc.remote_hw hw_invalid then offset else (sc.ram_size + offset) % 2 ^ 64)
from_end sc _ offset = none

-- The switch over orig, where file->f_pos is `old`.
unfoldable pub target : Softc → Subdev → ℕ → ℕ → ℕ → Option ℕ
target sc subdev old offset orig =
    if orig == seek_set
    then some offset
    else if orig == seek_cur
    then some ((old + offset) % 2 ^ 64)
    else if orig == seek_end
    then from_end sc subdev offset
    else some old

-- sis1100_llseek: the result, and file->f_pos
unfoldable pub llseek : Softc → Subdev → ℕ → ℕ → ℕ → ℕ × ℕ
unfolding target
llseek sc subdev old offset orig = elim (target sc subdev old offset orig) [
  | none ↦ (minus_einval, old)
  | some t ↦ if leb (2 ^ 63) t || ltb (limit sc subdev) t then (minus_einval, old) else (t, t)
]
