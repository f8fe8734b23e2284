-- ===== src/Event.antt =====
-- Events: the structures in an event's bytes, and the builder of those bytes.
mod Tests
pub mod Structures
pub mod BankBuilder
pub mod Builder
pub mod Composite
