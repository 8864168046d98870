-- ===== src/Wal.antt =====
-- The log of src/wal_engine.c: the second core takes requests, writes records through the store and
-- keeps an index of the writes.
pub mod State
pub mod Merge
pub mod Engine
pub mod Compact
pub mod Tests
