-- ===== src/Lib.antt =====
-- PicoWAL: the key-value store of a Raspberry Pi Pico, kept on its flash, and what stands on it.
--
-- Prelude holds the Boolean tests, lists and the bitwise laws.
-- Crc is `crc32` of src/kv_flash.c and its table; Crc/Serial compares it with the polynomial.
-- KvFlash is src/kv_flash.c, one module for each part of that file:
--   Loc      `pack_loc`, `unpack_loc`
--   Index    the parallel arrays g_keys, g_locs, g_versions, g_flags as one list, and
--            g_page_ref_count: `idx_find_linear`, `idx_set`, `idx_remove`, `idx_get`
--   Hw       the flash and the coder of lib/picocompress: a record of functions, and their laws
--   State    the other globals; Bytes has the little-endian words and the ranges of bytes
--   Page     `flash_program_aligned`, `ensure_page_ready`, `find_next_append_page`,
--            `prewarm_next_append_page`, `select_append_page`
--   Deadlog  `deadlog_append`, `kv_compact_step`
--   Record   `append_record`, `read_record`
--   Store    `kv_put_if_version`, `kv_put`, `kv_get_copy`, `kv_get`, `kv_delete`, `kv_get_raw`,
--            `kv_exists`
--   Recover  `kv_init`, `kv_wipe`
--   Report   `kv_range`, `kv_record_count`, `kv_type_counts`, `kv_stats`, `kv_reclaim`
--   Tests    a flash and a coder that keep their laws, and runs of the theorems on them
-- Wal is src/wal_engine.c over src/wal_defs.h, with the store as a parameter (`KvStore`):
--   State    `wal_state_t` and its parts; the buffer pool is one stretch of bytes
--   Merge    the overlay of a delta's fields on a record, in `wal_do_append`; its `Outcome` says
--            where the code hangs or leaves its buffer
--   Engine   `wal_do_append`, `wal_do_read`, `wal_do_kv_get`, `wal_do_kv_put` and the switch of
--            `wal_engine_run`
--   Compact  `wal_compact_step`
-- Metadata is src/metadata_dict.c over a store (`MetaStore`): `metadata_set_schema`,
-- `metadata_get_schema`, and the same for types and fields; Metadata/FieldTypes has the names of the
-- field types, Metadata/Names the keys, names and caches.
-- Routing is src/kv_store.h over two stores (`Backend`), the flash and the card.
-- Users is src/user_auth.c over a store and SHA-256 (`AuthEnv`). Where a theorem needs that a card is
-- stored, it asks that of the puts it meets (Laws: `IsSaved`), which the flash may refuse or lose:
--   Card     the cards of users: `build_user_card`, `parse_user_card`
--   Login    login, logout, the check of a token, the change of a password, new users
--   Access   the schema cards, and who may read, write and delete
--   Cookie   the token in a Cookie header
--   Boot     `user_auth_init`, with the data of Reference
--   Known, Table, Lockout, Sessions, Tokens  what holds of them
--   OnFlash  the same code with the calls of KvFlash
-- Query is src/query.c without the aggregates:
--   Text, Parse  `query_parse`, for texts below 2^16 characters, and what it takes texts apart with
--   Field        `extract_field_str`, `extract_field_int32`, over the C library's `Decimal`
--   Compare      `compare_str`, `compare_int`, `compare_int_direct`; Numeric has the numeric types
--   Packs        `resolve_pack`, `find_field`, `find_lookup_to`, `search_pack_field`
--   Where, Plan  the conditions of `query_execute`, and the order in which it tests them
--   Rows         the selected fields and the rows of `query_execute`
--   Escape       `escape_field`; Fanout `fanout_update`, `fanout_estimate`
-- The flash is a function from offsets to bytes. What the Pico SDK does on an erase or a program,
-- and that the coder inverts itself, are the hypotheses `HwLaws`.
-- What the FIFO takes (`fifo_ready`) and what a buffer on the stack holds before it is written
-- (`stack` of `MetaStore`) are arguments.
-- A function that changes globals takes and returns the state `Kv`. Interrupts, the XIP base address
-- and the trace output are left out.
--
-- Not modelled: the card store src/kv_sd.c (Routing takes it as a parameter), the aggregates of a
-- query, the UDP protocol and the web server; the drivers, the start-up and the DMA, which are
-- hardware I/O; lib/picocompress, which is another project's code and enters by its two calls.
--
-- Fuel: the binary search has the length of its interval, which each round shortens; the scans of
-- pages and of the dead log have the number of rounds that their loops have. The scan of one page in
-- the recovery has 256 rounds, of at least 16 bytes each. The search for a field can run for ever on
-- bytes that are no fields; a search that ends is at each position of the record once, so it has one
-- round more than there are bytes, and one that still runs then is a hang. `kv_reclaim` has one round
-- more than there are pages. The loops over the fields of a card have as many rounds as there are
-- bytes, of which each takes two; the search of a cookie has a round more than there are characters.
pub mod Prelude
pub mod Crc
pub mod KvFlash
pub mod Metadata
pub mod Query
pub mod Routing
pub mod Users
pub mod Wal
