-- ===== src/Wire.antt =====
-- src/wire: the byte layout of a HIPO file.
mod Tests
pub mod Bytes
pub mod Fields
pub mod Constants
pub mod RecordHeader
pub mod FileHeader
pub mod EventIndex
