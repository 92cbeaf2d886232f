-- ===== src/Fields.antt =====
-- The column types (src/tortoise_extended/fields).
pub mod Ltree
pub mod Vector
mod Tests
