-- ===== src/Front.antt =====
-- The front panels (sis1100_front_io.c, sis1100rem_front_io.c, sis3100rem_front_io.c and
-- sis5100rem_front_io.c of sis3100/sis1100-2.13/src): `Panel` translates them, `Digits` proves what
-- becomes of the outputs, and `Shown` what sis1100_front_io does as a whole.
mod Panel
pub mod Digits
pub mod Shown
unfoldable pub use Panel.*
