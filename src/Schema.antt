-- ===== src/Schema.antt =====
-- Schemas: the types and the layout of a bank's columns, and the index of schemas by identifier.
mod Tests
pub mod Types
pub mod Index
pub mod Dict
