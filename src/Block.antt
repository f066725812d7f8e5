-- ===== src/Block.antt =====
-- Blocks of words read and written one by one. `Loop` translates sis1100_read_loop.c
-- (sis3100/sis1100-2.13/src), `Send` sis1100_write_loop.c. `Round` and `Count` prove which words reach
-- user memory; `Part`, `Room`, `Sent` and `Written` prove which words are sent, `Errors` and `Report`
-- which error is reported; `Lanes` is about the
-- lanes of a word.
mod Loop
mod Send
pub mod Round
pub mod Part
pub mod Room
pub mod Sent
pub mod Written
pub mod Lanes
pub mod Count
pub mod Errors
pub mod Report
unfoldable pub use Loop.*
unfoldable pub use Send.*
