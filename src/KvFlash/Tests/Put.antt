-- ===== src/KvFlash/Tests/Put.antt =====
-- Concrete runs of a put: one that is read back, and one whose record is lost.
use picowal.Prelude.{
  ℕ, ◌+◌, ◌%◌, ◌-◌, ◌≤◌, ◌≡◌, refl, true, inl, none, some, List, [], ◌∷◌, arith, length, ltb,
  if◌then◌else◌, get_or, get_or_beyond, replicate,
}
use picowal.Crc.{crc32, crc32_tab, crc32_step, crc32_loop}
use picowal.KvFlash.Hw.{Mem}
use picowal.KvFlash.Bytes.{le32, read16, read32, read_bytes}
use picowal.KvFlash.Index.{idx_get}
use picowal.KvFlash.Index.Table.{IsTable}
use picowal.KvFlash.Index.Idle.{empty_index}
use picowal.KvFlash.State.{Kv, version_any, region_start, sector_size}
use picowal.KvFlash.Page.{page_hdr_prefix, page_hdr, header_valid}
use picowal.KvFlash.Record.{align4, encode}
use picowal.KvFlash.Record.Append.{IsReady, footprint}
use picowal.KvFlash.Store.{next_version, version_of, kv_put_if_version, kv_get_copy}
use picowal.KvFlash.Store.Roundtrip.{kv_get_copy-kv_put, kv_put_loses_value}
use picowal.KvFlash.Tests.Flash.{toy, toy-HwLaws, toy_compress, is_zeros}

-- A flash that is erased but for the header of page 0.
abbrev pub flash : Mem
flash a = if ltb a region_start then 0xFF else get_or (page_hdr 1) (a - region_start) 0xFF

-- Page 0 is written from this offset on.
abbrev pub at : ℕ → Kv
at off = record {
  mem = flash;
  index = empty_index;
  page_sequence = 1;
  mutation_group = 0;
  write_page = 0;
  write_off = off;
  deadlog_write_page = 0;
  deadlog_write_off = 4;
  deadlog_read_page = 0;
  deadlog_read_off = 4;
}

at-header : header_valid flash 0 ≡ true
unfolding header_valid page_hdr page_hdr_prefix le32 read16 read32 read_bytes crc32 crc32_loop
    crc32_step crc32_tab
at-header = refl

length-page_hdr : length (page_hdr 1) ≡ 16
unfolding page_hdr page_hdr_prefix le32
length-page_hdr = refl

pub at-IsReady :
    (off need : ℕ) → 16 ≤ off → off % 4 ≡ 0 → off + need ≤ sector_size → IsReady (at off) need
at-IsReady off need h aligned room = record {
  page_in = omega arith;
  header = at-header;
  aligned = aligned;
  room = room;
  blank =
      λ a p q. ground (arith, length-page_hdr, get_or_beyond (page_hdr 1) (a - region_start) 0xFF);
}

pub empty-IsTable : IsTable empty_index
empty-IsTable = record { ascending = tt; fits = omega arith }

abbrev hello : List ℕ
hello = 104 ∷ 101 ∷ 108 ∷ 108 ∷ 111 ∷ []

hello-footprint : footprint (encode toy hello 0) ≡ 48
unfolding encode align4
hello-footprint = refl

kv_get_copy-kv_put_example :
    ((kv_put_if_version toy (at 16) 42 hello version_any).0
      ≡ some (next_version (version_of (idx_get empty_index 42))))
    × (kv_get_copy toy (kv_put_if_version toy (at 16) 42 hello version_any).1 42 64
        ≡ some (hello, next_version (version_of (idx_get empty_index 42))))
kv_get_copy-kv_put_example =
    kv_get_copy-kv_put toy-HwLaws (at 16) 42 hello version_any empty-IsTable (omega arith)
      (inl refl) (omega arith) (omega arith)
      (at-IsReady 16 _ (omega arith) (omega arith) (omega (arith, hello-footprint))) 64
      (omega arith) (omega (arith, hello-footprint))

-- 500 bytes that the coder does not compress.
abbrev long : List ℕ
long = 7 ∷ replicate 499 0

long-footprint : footprint (encode toy long 0) ≡ 544
unfolding encode align4 toy_compress is_zeros
long-footprint = refl

kv_put_loses_value_example :
    ((kv_put_if_version toy (at 252) 42 long version_any).0
      ≡ some (next_version (version_of (idx_get empty_index 42))))
    × (kv_get_copy toy (kv_put_if_version toy (at 252) 42 long version_any).1 42 508 ≡ none)
kv_put_loses_value_example =
    kv_put_loses_value toy-HwLaws (at 252) 42 long version_any empty-IsTable (omega arith)
      (inl refl) (omega arith) (omega arith)
      (at-IsReady 252 _ (omega arith) (omega arith) (omega (arith, long-footprint))) 508
      (omega (arith, long-footprint))
