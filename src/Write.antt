-- ===== src/Write.antt =====
-- The writer of a file.
mod Tests
pub mod Writer
