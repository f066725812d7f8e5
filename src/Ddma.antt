-- ===== src/Ddma.antt =====
-- Demand DMA into a ring of blocks: sis3100/sis1100-2.13/src/sis1100_ddma_startstop.c. `Hook` is what
-- the interrupt and the user's marks do to the ring, `Switch` starts, stops and waits. The other
-- modules prove: `Ring` the invariant of the ring, `Keeps` that the changes of the ring keep it,
-- `History` in which order blocks are delivered, `Stall` when the DMA goes on and how a mark is lost.
mod Hook
mod Switch
pub mod Ring
mod Keeps
pub mod History
pub mod Stall
unfoldable pub use Hook.*
unfoldable pub use Switch.*
