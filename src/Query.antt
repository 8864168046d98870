-- ===== src/Query.antt =====
-- The queries of src/query.c.
pub mod Text
pub mod Parse
pub mod Escape
pub mod Fanout
pub mod Field
pub mod Numeric
pub mod Compare
pub mod Packs
pub mod Plan
pub mod Where
pub mod Rows
mod Tests
