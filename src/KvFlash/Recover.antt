-- ===== src/KvFlash/Recover.antt =====
-- The recovery of src/kv_flash.c, `kv_init`: the index is rebuilt from the records on the flash whose
-- commit marker follows them.
pub mod Marker
pub mod Rebuild
pub mod Fuel
pub mod Replay
use Prim.Native.Nat.{bit_and}
use picowal.Prelude.{
  ℕ, zero, suc, ◌+◌, ◌*◌, ◌/◌, ◌%◌, ◌^◌, Bool, true, false, ◌&&◌, ◌||◌, Option, none, some, ltb,
  leb, ◌==◌, if◌then◌else◌, replicate, [],
}
use picowal.Crc.{crc32}
use picowal.KvFlash.Hw.{Mem, Hw}
use picowal.KvFlash.Bytes.{read16, read32, read_bytes}
use picowal.KvFlash.Loc.{pack_loc}
use picowal.KvFlash.Index.{
  Index, Found, found, absent, entry_at, idx_find_linear, idx_set, idx_remove,
}
use picowal.KvFlash.Index.Refs.{sector_count}
use picowal.KvFlash.Index.Idle.{empty_index}
use picowal.KvFlash.State.{
  Kv, sector_size, page_hdr_size, rec_prefix_size, commit_rec_size, record_magic, commit_magic,
  flag_tomb, deadlog_magic, deadlog_sectors, page_addr, deadlog_addr, region_start,
}
use picowal.KvFlash.Page.{header_valid}
use picowal.KvFlash.Deadlog.{deadlog_hdr_size, skip_entries, skip_fuel}
use picowal.KvFlash.Record.{align4}

-- The variables pending_key, .., pending_mg, which count while has_pending is set.
pub record Pending : Type 0 where
  pub key : ℕ
  pub loc : ℕ
  pub version : ℕ
  pub flags : ℕ
  pub mutation_group : ℕ

-- `f < 0 || pending_version >= old_ver`
abbrev pub supersedes : Index → Found → ℕ → Bool
supersedes ix (found f) version = leb (entry_at ix.entries f).version version
supersedes ix (absent _) version = true

-- A committed record enters the index, unless that has a higher version.
unfoldable pub apply_pending : Index → Pending → Index
apply_pending ix p =
    if supersedes ix (idx_find_linear ix.entries p.key) p.version
    then (if bit_and p.flags flag_tomb == 0
        then (idx_set ix p.key p.loc p.version p.flags).1
        else idx_remove ix p.key)
    else ix

-- The commit marker at `r`: none is pending afterwards.
unfoldable pub scan_commit : Mem → ℕ → Option Pending → Index → Index
scan_commit m r none ix = ix
scan_commit m r (some p) ix =
    if (read32 m (r + 10) == crc32 (read_bytes m (r + 2) 8))
      && (read32 m (r + 2) == p.mutation_group)
    then apply_pending ix p
    else ix

-- The data record at `off` becomes pending if its checksum holds; else what was pending stays.
unfoldable pub scan_data : Mem → ℕ → ℕ → Option Pending → Option Pending
scan_data m page off pending =
    let r = page_addr page + off in
    let rec_len = read16 m r in
    if crc32 (read_bytes m (r + rec_prefix_size) (read16 m (r + 16))) == read32 m (r + 22)
    then some (record {
      key = read32 m (r + 10);
      loc = pack_loc page off (align4 rec_len);
      version = read16 m (r + 18);
      flags = m (r + 20);
      mutation_group = read32 m (r + 2);
    })
    else pending

-- One round of the inner loop, `none` where it breaks.
unfoldable pub scan_round : Mem → ℕ → ℕ → Option Pending → Index → Option (Option Pending × Index)
scan_round m page off pending ix =
    let r = page_addr page + off in
    let rec_len = read16 m r in
    let magic = read32 m (r + 6) in
    if rec_len == 0xFFFF
    then none
    else if rec_len == 0
    then none
    else if magic == commit_magic
    then (if ltb rec_len commit_rec_size
        then none
        else if ltb sector_size (off + rec_len)
        then none
        else some (none, scan_commit m r pending ix))
    else if magic == record_magic
    then (if ltb rec_len rec_prefix_size
        then none
        else if ltb sector_size (off + rec_len)
        then none
        else if ltb rec_len (rec_prefix_size + read16 m (r + 16))
        then none
        else some (scan_data m page off pending, ix))
    else none

-- The inner loop; the offset where it ends, and the index.
unfoldable pub scan_page : ℕ → Mem → ℕ → ℕ → Option Pending → Index → ℕ × Index
scan_page zero m page off pending ix = (off, ix)
scan_page (suc fuel) m page off pending ix =
    if leb (off + commit_rec_size) sector_size
    then (elim (scan_round m page off pending ix) [
      | none ↦ (off, ix)
      | some (pending', ix') ↦
          scan_page fuel m page ((off + align4 (read16 m (page_addr page + off))) % 2 ^ 16) pending'
            ix'
    ])
    else (off, ix)

-- A round takes at least 16 of the 4096 bytes.
abbrev pub scan_fuel : ℕ
scan_fuel = 256

-- What the loop over the pages changes; `last` is last_page and last_off, once saw_data is set.
pub record Scan : Type 0 where
  pub index : Index
  pub page_sequence : ℕ
  pub last : Option (ℕ × ℕ)

unfoldable pub init_page : Mem → Scan → ℕ → Scan
init_page m s page =
    let sequence = read32 m (page_addr page + 8) in
    let (off, ix) = scan_page scan_fuel m page page_hdr_size none s.index in
    if header_valid m page
    then record {
      index = ix;
      page_sequence = if ltb s.page_sequence sequence then sequence else s.page_sequence;
      last = if ltb page_hdr_size off then some (page, off) else s.last;
    }
    else s

-- The loop over the pages, `n` of them left.
unfoldable pub init_pages : ℕ → Mem → Scan → ℕ → Scan
init_pages zero m s page = s
init_pages (suc n) m s page = init_pages n m (init_page m s page) (page + 1)

-- The place to append to: behind the last record that was seen.
unfoldable pub write_place : Option (ℕ × ℕ) → ℕ × ℕ
write_place none = (0, page_hdr_size)
write_place (some (page, off)) =
    if leb sector_size off then ((page + 1) % sector_count, page_hdr_size) else (page, off)

-- The loop over the dead log's pages; the place to append to.
unfoldable pub init_deadlog : ℕ → Mem → ℕ → ℕ × ℕ → ℕ × ℕ
init_deadlog zero m p place = place
init_deadlog (suc n) m p place =
    let base = deadlog_addr p in
    let found_place =
      if read32 m base == deadlog_magic
      then (p, skip_entries skip_fuel m base deadlog_hdr_size)
      else place in
    init_deadlog n m (p + 1) found_place

unfoldable pub kv_init : Kv → Kv
kv_init s =
    let start : Scan = record { index = empty_index; page_sequence = 0; last = none } in
    let scan = init_pages sector_count s.mem start 0 in
    let (write_page, write_off) = write_place scan.last in
    let (dl_page, dl_off) = init_deadlog deadlog_sectors s.mem 0 (0, deadlog_hdr_size) in
    record {
      mem = s.mem;
      index = scan.index;
      page_sequence = scan.page_sequence;
      mutation_group = (scan.page_sequence + 1) % 2 ^ 32;
      write_page = write_page;
      write_off = write_off;
      deadlog_write_page = dl_page;
      deadlog_write_off = dl_off;
      deadlog_read_page = 0;
      deadlog_read_off = deadlog_hdr_size;
    }

module _ (hw : Hw) where
  -- The loop of `kv_wipe`, `n` sectors left.
  unfoldable pub wipe_loop : ℕ → Mem → ℕ → Mem
  wipe_loop zero m off = m
  wipe_loop (suc n) m off = wipe_loop n (hw.erase m off sector_size) (off + sector_size)

  -- The places of the dead log stay as they are.
  unfoldable pub kv_wipe : Kv → Kv
  kv_wipe s = record s {
    mem = wipe_loop (sector_count + deadlog_sectors) s.mem region_start;
    index = empty_index;
    write_page = 0;
    write_off = page_hdr_size;
    page_sequence = 0;
    mutation_group = 0;
  }
