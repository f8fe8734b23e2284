-- ===== src/Wire/Constants.antt =====
-- src/wire/constants.rs: the numbers of the wire format, and the tags that it packs into words.
pub mod Words
pub mod Tags
