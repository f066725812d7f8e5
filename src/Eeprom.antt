-- ===== src/Eeprom.antt =====
-- The serial EEPROM of the PLX bridge: sis3100/sis1100-2.13/src/sis1100_eeprom.c. `Bits` has the
-- bit-banged commands, `Words` the transfers of words and their dispatch on the bridge, `Wire` a
-- decoder of the lines that the EEPROM sees. `Lines` proves about the masks, `Command` and `Frames`
-- what the commands send, `Reading` what a transfer of words stores.
mod Bits
mod Words
pub mod Wire
mod Lines
pub mod Command
pub mod Frames
pub mod Reading
unfoldable pub use Bits.*
unfoldable pub use Words.*
