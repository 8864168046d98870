-- ===== src/KvFlash/State.antt =====
-- The globals of src/kv_flash.c and its layout constants.
use picowal.Prelude.{ℕ, ◌+◌, ◌*◌}
use picowal.KvFlash.Hw.{Mem}
use picowal.KvFlash.Index.{Index}

-- The flash, g_keys.. and g_page_ref_count, and the other globals under their names.
pub record Kv : Type 0 where
  pub mem : Mem
  pub index : Index
  pub page_sequence : ℕ
  pub mutation_group : ℕ
  pub write_page : ℕ
  pub write_off : ℕ
  pub deadlog_write_page : ℕ
  pub deadlog_write_off : ℕ
  pub deadlog_read_page : ℕ
  pub deadlog_read_off : ℕ

abbrev pub sector_size : ℕ
sector_size = 4096

-- The region of the records, and the four sectors of the dead log behind it.
abbrev pub region_start : ℕ
region_start = 1048576

abbrev pub deadlog_start : ℕ
deadlog_start = 4173824

abbrev pub deadlog_sectors : ℕ
deadlog_sectors = 4

abbrev pub free_word : ℕ
free_word = 0xFFFF_FFFF

-- sizeof(kv_page_hdr_t), sizeof(kv_rec_prefix_t), sizeof(kv_commit_rec_t), KV_COMMIT_ALIGNED
abbrev pub page_hdr_size : ℕ
page_hdr_size = 16

abbrev pub rec_prefix_size : ℕ
rec_prefix_size = 26

abbrev pub commit_rec_size : ℕ
commit_rec_size = 14

abbrev pub commit_aligned : ℕ
commit_aligned = 16

abbrev pub page_magic : ℕ
page_magic = 0x4B56_5031

abbrev pub record_magic : ℕ
record_magic = 0x4B56_5331

abbrev pub commit_magic : ℕ
commit_magic = 0x4B56_4D43

abbrev pub deadlog_magic : ℕ
deadlog_magic = 0x444C_4731

abbrev pub max_value : ℕ
max_value = 508

-- KV_VERSION_ANY
abbrev pub version_any : ℕ
version_any = 0xFFFF

abbrev pub flag_comp : ℕ
flag_comp = 1

abbrev pub flag_tomb : ℕ
flag_tomb = 2

abbrev pub page_addr : ℕ → ℕ
page_addr page = region_start + page * sector_size

abbrev pub deadlog_addr : ℕ → ℕ
deadlog_addr page = deadlog_start + page * sector_size
