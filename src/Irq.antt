-- ===== src/Irq.antt =====
-- Interrupts. `Owner` is who owns which IRQ (reserve_irq and release_irq), `Far` the VME and CAMAC
-- controllers (sis3100rem_irq.c, sis5100rem_irq.c), `Control` and `Get` the requests of user programs
-- (sis1100_irq_handler.c), `Intr` the interrupt routine (sis1100_irq.c) and the small handlers of
-- the interrupt thread. The other modules prove: `Exclusive` about owners, `Keeps`, `Branches` and
-- `Lossless` about the interrupt routine, `Lemo` about its LEMO handler, `Highest` about vectors,
-- `Under`, `Steps` and `Discipline` about the controllers' functions, `Ack` about acknowledging, `Sides` and
-- `Ctl` about enabling and disabling.
mod Owner
mod Far
mod Control
mod Get
mod Intr
pub mod Exclusive
pub mod Keeps
mod Branches
pub mod Lossless
pub mod Lemo
pub mod Highest
pub mod Under
mod Steps
pub mod Discipline
pub mod Ack
mod Sides
pub mod Ctl
unfoldable pub use Owner.*
unfoldable pub use Far.*
unfoldable pub use Control.*
unfoldable pub use Get.*
unfoldable pub use Intr.*
