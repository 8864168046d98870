-- ===== src/KvFlash/Deadlog.antt =====
-- The dead log of src/kv_flash.c: the pages that lost a record, for the background compaction.
pub mod Frame
use picowal.Prelude.{
  ℕ, zero, suc, ◌+◌, ◌-◌, ◌*◌, ◌%◌, ◌^◌, Bool, true, false, Option, none, some, List, [], ◌∷◌, ◌++◌,
  replicate, ltb, leb, ◌==◌, if◌then◌else◌,
}
use picowal.KvFlash.Hw.{Mem, Hw}
use picowal.KvFlash.Bytes.{le16, le32, read16, read32}
use picowal.KvFlash.Index.{page_has_live_refs}
use picowal.KvFlash.Index.Refs.{sector_count}
use picowal.KvFlash.State.{
  Kv, sector_size, free_word, deadlog_magic, deadlog_sectors, deadlog_addr, page_addr,
}
use picowal.KvFlash.Page.{flash_program_aligned}

-- sizeof(deadlog_hdr_t) and sizeof(deadlog_entry_t)
abbrev pub deadlog_hdr_size : ℕ
deadlog_hdr_size = 4

abbrev pub deadlog_entry_size : ℕ
deadlog_entry_size = 4

-- `while (off + 4 <= KV_SECTOR_SIZE) { if (*probe == 0xFFFF) break; off += 4; }`: at most 1024 rounds.
unfoldable pub skip_entries : ℕ → Mem → ℕ → ℕ → ℕ
skip_entries zero m base off = off
skip_entries (suc n) m base off =
    let rest = skip_entries n m base (off + deadlog_entry_size) in
    if leb (off + deadlog_entry_size) sector_size
    then (if read16 m (base + off) == 0xFFFF then off else rest)
    else off

abbrev pub skip_fuel : ℕ
skip_fuel = 1024

-- The first 256 bytes of a page of the log.
unfoldable pub deadlog_hdrbuf : List ℕ
deadlog_hdrbuf = le32 deadlog_magic ++ replicate 252 0xFF

module _ (hw : Hw) where
  unfoldable pub deadlog_reset_page : Mem → ℕ → Mem
  deadlog_reset_page m p = hw.erase m (deadlog_addr p) sector_size

  -- Whether the page is a page of the log, which it is made if it is blank.
  unfoldable pub deadlog_init_page_if_needed : Mem → ℕ → Bool × Mem
  deadlog_init_page_if_needed m p =
      let magic = read32 m (deadlog_addr p) in
      if magic == deadlog_magic
      then (true, m)
      else if magic == free_word
      then (true, hw.program m (deadlog_addr p) deadlog_hdrbuf)
      else (false, m)

  -- One entry: the page, and a reserved word.
  unfoldable pub deadlog_put : Kv → ℕ → ℕ → ℕ → Kv
  deadlog_put s p off page_idx = record s {
    mem = flash_program_aligned hw s.mem (deadlog_addr p + off) (le16 page_idx ++ le16 0);
    deadlog_write_page = p;
    deadlog_write_off = (off + deadlog_entry_size) % 2 ^ 16;
  }

  -- When every page is full, the page of the log is erased and starts again.
  unfoldable pub deadlog_restart : Kv → ℕ → Bool × Kv
  deadlog_restart s page_idx =
      let p = s.deadlog_write_page in
      let (ready, m) = deadlog_init_page_if_needed (deadlog_reset_page s.mem p) p in
      let s' = record s { mem = m; deadlog_write_off = deadlog_hdr_size } in
      if ready then (true, deadlog_put s' p deadlog_hdr_size page_idx) else (false, s')

  -- The loop over the pages of the log, `n` of them left; `start` is g_deadlog_write_page and
  -- `start_off` g_deadlog_write_off, which the loop changes only as it ends.
  unfoldable pub deadlog_append_loop : ℕ → Kv → ℕ → ℕ → ℕ → ℕ → Bool × Kv
  deadlog_append_loop zero s start start_off i page_idx = deadlog_restart s page_idx
  deadlog_append_loop (suc n) s start start_off i page_idx =
      let p = (start + i) % deadlog_sectors in
      let (ready, m) = deadlog_init_page_if_needed s.mem p in
      let s' = record s { mem = m } in
      let rest = deadlog_append_loop n s' start start_off (i + 1) page_idx in
      let first = if p == start then start_off else deadlog_hdr_size in
      let off = skip_entries skip_fuel m (deadlog_addr p) first in
      if ready
      then (if leb (off + deadlog_entry_size) sector_size
          then (true, deadlog_put s' p off page_idx)
          else rest)
      else rest

  unfoldable pub deadlog_append : Kv → ℕ → Bool × Kv
  deadlog_append s page_idx =
      deadlog_append_loop deadlog_sectors s s.deadlog_write_page s.deadlog_write_off 0 page_idx

  -- An entry that was read: the page is erased, unless it is being written to, is still referred to,
  -- or is blank.
  unfoldable pub reclaim_page : Kv → ℕ → Bool × Kv
  reclaim_page s dead_page =
      if dead_page == s.write_page
      then (false, s)
      else if page_has_live_refs s.index dead_page
      then (false, s)
      else if read32 s.mem (page_addr dead_page) == free_word
      then (false, s)
      else (true, record s { mem = hw.erase s.mem (page_addr dead_page) sector_size })

  -- The loop over the pages of the log, `n` of them left; nothing of the state changes before it
  -- returns.
  unfoldable pub compact_loop : ℕ → Kv → ℕ → Bool × Kv
  compact_loop zero s spin = (false, s)
  compact_loop (suc n) s spin =
      let rest = compact_loop n s (spin + 1) in
      let p = (s.deadlog_read_page + spin) % deadlog_sectors in
      let base = deadlog_addr p in
      let off = if p == s.deadlog_read_page then s.deadlog_read_off else deadlog_hdr_size in
      let page_idx = read16 s.mem (base + off) in
      let s' = record s {
        deadlog_read_page = p;
        deadlog_read_off = (off + deadlog_entry_size) % 2 ^ 16;
      } in
      if read32 s.mem base == deadlog_magic
      then (if ltb sector_size (off + deadlog_entry_size)
          then rest
          else if page_idx == 0xFFFF
          then rest
          else if leb sector_count page_idx
          then (false, s')
          else reclaim_page s' page_idx)
      else rest

  unfoldable pub kv_compact_step : Kv → Bool × Kv
  kv_compact_step s = compact_loop deadlog_sectors s 0
