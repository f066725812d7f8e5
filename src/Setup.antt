-- ===== src/Setup.antt =====
-- The other side of the link: how it is identified and set up, and the thread that serves its
-- interrupts (sis3100/sis1100-2.13/src). `Sdram` reads the EEPROM of the SDRAM (sis1100_init_sdram.c),
-- `Sides` has the setup of each kind of other side, `Init` is sis1100_init_remote.c, and `Thread`
-- sis1100_irq_thread.c. The other modules prove: `Keeps` and `Parts` what the setup leaves alone,
-- `Known` which other sides are accepted, `Outcome` and `Sound` what sis1100_init_remote does as a
-- whole, `Calm` what the handlers of the thread leave alone, and `Signals` whom it informs.
mod Sdram
mod Sides
mod Init
mod Thread
pub mod Keeps
pub mod Parts
pub mod Known
pub mod Outcome
pub mod Sound
pub mod Calm
pub mod Signals
unfoldable pub use Sdram.*
unfoldable pub use Sides.*
unfoldable pub use Init.*
unfoldable pub use Thread.*
