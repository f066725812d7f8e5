-- ===== src/Bus.antt =====
-- The driver's view of the hardware, of user memory and of its own locks: a state and error monad
-- over the softc and the sequence of accesses made so far. `Device` stands for everything outside
-- the driver; a read may depend on every access before it, so a device is free to behave in any
-- way. `none` is a busy-wait loop that is still spinning after `patience` rounds.
mod Monad
mod State
mod Regs
mod Poll
pub mod Spec
pub mod Observed
pub use State.*
pub use Monad.*
pub use Regs.*
pub use Poll.*
