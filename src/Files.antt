-- ===== src/Files.antt =====
-- The device files (sis3100/sis1100-2.13/src): `Seek` translates sis1100_llseek_linux.c, `Settings` and
-- `Requests` those requests of sis1100_ioctl.c that Vme has not, and `Registers`
-- sis1100_ctrl_rw_block.c. `Positions` proves where the position goes, `Blocks` which blocks of
-- registers are let through, `Reset` what a reset does to the link, and `Far` what is read from the
-- registers of the other side.
mod Seek
mod Settings
mod Requests
mod Registers
pub mod Positions
pub mod Blocks
pub mod Reset
pub mod Far
unfoldable pub use Seek.*
unfoldable pub use Settings.*
unfoldable pub use Requests.*
unfoldable pub use Registers.*
