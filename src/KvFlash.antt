-- ===== src/KvFlash.antt =====
-- The flash key-value store, src/kv_flash.c: its packed locations, its sorted index, its pages and
-- records on the flash, and the operations of its interface.
pub mod Loc
pub mod Index
pub mod Hw
pub mod Bytes
pub mod State
pub mod Page
pub mod Deadlog
pub mod Record
pub mod Recover
pub mod Report
pub mod Store
pub mod Tests
