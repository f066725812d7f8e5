-- ===== src/Vme.antt =====
-- The way of a single VME transfer from a user program's call down to the link: the library
-- libsis3100 (`Library`, `Control`) and the driver's requests (`Requests`), which use Remote.
-- `Outcome` proves.
mod Requests
mod Library
mod Control
pub mod Outcome
unfoldable pub use Requests.*
unfoldable pub use Library.*
unfoldable pub use Control.*
