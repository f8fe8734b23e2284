-- ===== src/Record.antt =====
-- Records: the codecs of their payload, the swap of a big-endian payload, the decoding of a record
-- into events, and the builder of a record from events.
mod Tests
pub mod Codec
pub mod Endian
pub mod Decode
pub mod Builder
