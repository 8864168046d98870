-- ===== src/KvFlash/Tests/Recover.antt =====
-- Concrete runs of the recovery and of the reports.
use picowal.Prelude.{
  ℕ, suc, ◌+◌, ◌-◌, ◌≡◌, refl, none, List, [], ◌∷◌, arith, length, get_or, ltb, if◌then◌else◌, take,
}
use picowal.Crc.{crc32, crc32_tab, crc32_step, crc32_loop}
use picowal.KvFlash.Hw.{Mem}
use picowal.KvFlash.Bytes.{read16, read32, read_bytes, Holds, Holds-get_or, le16, le32}
use picowal.KvFlash.Index.{entry}
use picowal.KvFlash.Index.Idle.{Reach, empty_index}
use picowal.KvFlash.Index.Refs.{IsCounted}
use picowal.KvFlash.State.{Kv, page_addr, rec_prefix_size}
use picowal.KvFlash.Record.{Stored, align4, program_buf, rec_prefix}
use picowal.KvFlash.Record.Append.{footprint}
use picowal.KvFlash.Record.Layout.{IsRecord}
use picowal.KvFlash.Recover.{apply_pending, scan_page, scan_fuel, kv_init}
use picowal.KvFlash.Recover.Rebuild.{kv_init-IsCounted}
use picowal.KvFlash.Recover.Replay.{staged, scan_page-program_buf, scan_page-torn}
use picowal.KvFlash.Recover.Fuel.{scan_page-enough}
use picowal.KvFlash.Report.{kv_range}
use picowal.KvFlash.Report.Range.{matches, kv_range-take}

abbrev kept : Stored
kept = record { bytes = 104 ∷ 105 ∷ []; flags = 0 }

abbrev buf : List ℕ
buf = program_buf 3 42 2 1 kept

-- A flash with the record on page 5 at offset 16, and the same without its marker.
abbrev whole : Mem
whole a = if ltb a (page_addr 5 + 16) then 0xFF else get_or buf (a - (page_addr 5 + 16)) 0xFF

abbrev torn : Mem
torn a = if ltb a (page_addr 5 + 44) then whole a else 0xFF

whole-Holds : Holds whole (page_addr 5 + 16) buf
whole-Holds = Holds-get_or whole (page_addr 5 + 16) buf (λ i p q. ground arith)

kept-footprint : footprint kept ≡ 44
unfolding align4
kept-footprint = refl

scan_page-program_buf_example :
    scan_page (suc (suc 254)) whole 5 16 none empty_index
    ≡ scan_page 254 whole 5
        (16 + footprint kept)
        none
        (apply_pending empty_index (staged whole 5 16 3 42 2 1 kept))
scan_page-program_buf_example =
    scan_page-program_buf whole 5 16 3 42 2 1 kept (omega arith) (omega (arith, kept-footprint))
      (omega arith) (omega arith) (omega arith) (omega arith) 254 none empty_index whole-Holds

torn-IsRecord : IsRecord torn (page_addr 5 + 16) 42 2 1 kept
unfolding read16 read32 read_bytes program_buf rec_prefix le16 le32 crc32 crc32_loop crc32_step
    crc32_tab
torn-IsRecord = record {
  rec_len = refl;
  magic = refl;
  key_field = refl;
  raw_len_field = refl;
  store_len = refl;
  version_field = refl;
  flags = refl;
  checksum = refl;
  stored_bytes = refl;
}

torn_group : read32 torn (page_addr 5 + 16 + 2) ≡ 3
unfolding read16 read32 program_buf rec_prefix le16 le32
torn_group = refl

torn_marker : read16 torn (page_addr 5 + 16 + align4 (rec_prefix_size + length kept.bytes)) ≡ 0xFFFF
unfolding read16 align4
torn_marker = refl

scan_page-torn_example :
    scan_page 256 torn 5 16 none empty_index
    ≡ (16 + align4 (rec_prefix_size + length kept.bytes), empty_index)
scan_page-torn_example =
    scan_page-torn torn 5 16 3 42 2 1 kept (omega arith) (omega (arith, kept-footprint)) 255 none
      empty_index torn-IsRecord torn_group torn_marker

scan_page-enough_example :
    scan_page 1000 whole 5 16 none empty_index ≡ scan_page scan_fuel whole 5 16 none empty_index
scan_page-enough_example = scan_page-enough 1000 whole 5 16 none empty_index (omega arith)

abbrev state : Kv
state = record {
  mem = whole;
  index = record {
    entries = entry 3 0 1 0 ∷ entry 4194305 0 1 0 ∷ entry 4194306 0 2 0 ∷ [];
    refs = [];
  };
  page_sequence = 0;
  mutation_group = 0;
  write_page = 0;
  write_off = 16;
  deadlog_write_page = 0;
  deadlog_write_off = 4;
  deadlog_read_page = 0;
  deadlog_read_off = 4;
}

kv_init-IsCounted_example : Reach (kv_init state).index × IsCounted (kv_init state).index
kv_init-IsCounted_example = kv_init-IsCounted state

kv_range-take_example :
    kv_range state 4194304 4290772992 1 ≡ take 1 (matches state.index.entries 4194304 4290772992)
kv_range-take_example = kv_range-take state 4194304 4290772992 1
