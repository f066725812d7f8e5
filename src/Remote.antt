-- ===== src/Remote.antt =====
-- Single transactions over the optical link: sis3100/sis1100-2.13/src/sis1100_tmp_read.c and
-- sis1100_tmp_write.c. `Lanes` is about the byte lanes of a word, `Cycle` about the accesses that
-- a transaction makes and when it ends, `Answer` about what it returns, `Frames` about its header.
mod Defs
pub mod Lanes
pub mod Cycle
pub mod Single
pub mod Answer
pub mod Frames
pub mod Registers
unfoldable pub use Defs.*
