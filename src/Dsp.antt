-- ===== src/Dsp.antt =====
-- The DSP of the controllers (sis3100/sis1100-2.13/src/sis1100_dsp.c): `Code` translates it, `Words`
-- and `Load` prove.
mod Code
pub mod Words
pub mod Stage
pub mod Load
unfoldable pub use Code.*
