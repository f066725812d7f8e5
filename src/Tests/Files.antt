-- ===== src/Tests/Files.antt =====
-- The device files of the sample board.
use mdaq_midas.Common.{◌≡◌, ◌≤◌, refl, ◌+◌, ◌-◌, inr, false, if◌then◌else◌, ◌*◌, ◌^◌, arith}
use mdaq_midas.Bus.{Softc, subdev_ram, subdev_ctrl}
use mdaq_midas.Vme.{einval}
use mdaq_midas.Files.{
  llseek, limit, seek_cur, seek_end, minus_einval, target, ioctl_ctrl_block_check, ioctl_reset,
}
use mdaq_midas.Files.Blocks.{block, is_inside, block_check-bounds}
use mdaq_midas.Files.{ctrl_read_remote_block}
use mdaq_midas.Files.Far.{FarRead, ctrl_read_remote_block-FarRead}
use mdaq_midas.Files.Reset.{Raced, ioctl_reset-races}
use mdaq_midas.Bus.Spec.{Returns, Disciplined}
use mdaq_midas.Files.Positions.{backward, pattern_of, exactly, destination, llseek-exactly}
use mdaq_midas.Tests.Board.{board, start, silent, silent-Responsive}

abbrev with_memory : Softc
with_memory = record board { ram_size = 512 * 2 ^ 20 }

back : llseek with_memory subdev_ram 100 (pattern_of (backward 40)) seek_cur ≡ (60, 60)
unfolding llseek target
back = refl

off_the_start :
    llseek with_memory subdev_ram 100 (pattern_of (backward 140)) seek_cur ≡ (minus_einval, 100)
unfolding llseek target
off_the_start = refl

no_end : llseek with_memory subdev_ctrl 100 0 seek_end ≡ (minus_einval, 100)
unfolding llseek target
no_end = refl

seek_example :
    (llseek with_memory subdev_ram 100 (pattern_of (backward 40)) seek_cur
      ≡ exactly
          (limit with_memory subdev_ram)
          100
          (destination with_memory subdev_ram 100 (backward 40) seek_cur))
    × ((llseek with_memory subdev_ram 100 (pattern_of (backward 40)) seek_cur).1
        ≤ limit with_memory subdev_ram)
seek_example =
    llseek-exactly with_memory subdev_ram 100 seek_cur (backward 40) (omega arith) (omega arith)
      (omega arith)

-- A block of two registers inside of the window, with the answer for 2 ^ 30 registers more.
check_example :
    (ioctl_ctrl_block_check (block 0x100 0 2) (0x800 - 1)
      ≡ (if is_inside 0x800 0x100 0 2 then 0 else einval))
    × (ioctl_ctrl_block_check (block 0x100 0 (2 + 2 ^ 30)) (0x800 - 1)
        ≡ ioctl_ctrl_block_check (block 0x100 0 2) (0x800 - 1))
check_example = block_check-bounds 0x800 0x100 0 2 (inr refl) (omega arith) (omega arith)

-- The last register of the window alone.
last_register : ioctl_ctrl_block_check (block 0x7fc 0 1) 0x7ff ≡ einval
unfolding ioctl_ctrl_block_check
last_register = refl

reset_races_example :
    Returns
      (λ res w'. (res ≡ 0) × (w'.sc ≡ start.sc) × Raced w' × ¬ (Disciplined w'.trace))
      (ioctl_reset silent start)
reset_races_example = ioctl_reset-races silent start refl

far_block_example :
    Returns
      (FarRead false 0x100 2 0x5000 start)
      (ctrl_read_remote_block 0x100 false 2 0x5000 silent start)
far_block_example =
    ctrl_read_remote_block-FarRead 0x100 false 2 0x5000 silent start silent-Responsive refl tt
