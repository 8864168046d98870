-- ===== src/Wal/Merge/Overrun.antt =====
-- The guard of a replacement in `wal_do_append` of src/wal_engine.c, where size_diff wraps around.
