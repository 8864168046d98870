-- ===== src/KvFlash/Tests.antt =====
-- Concrete runs of the store.
pub mod Flash
pub mod Index
pub mod Put
pub mod Recover
