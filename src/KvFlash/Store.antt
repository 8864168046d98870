-- ===== src/KvFlash/Store.antt =====
-- The operations of the interface src/kv_flash.h.
pub mod Roundtrip
use Prim.Native.Nat.{bit_and}
use picowal.Prelude.{
  ℕ, ◌+◌, ◌-◌, ◌/◌, ◌%◌, ◌^◌, Bool, true, false, ◌&&◌, Option, none, some, List, [], ◌∷◌, length,
  replicate, ltb, leb, ◌==◌, if◌then◌else◌,
}
use mathlib.Core.Bool.{not}
use picowal.Crc.{crc32}
use picowal.KvFlash.Hw.{Mem, Hw}
use picowal.KvFlash.Bytes.{read16, read32, read_bytes}
use picowal.KvFlash.Loc.{unpack_loc}
use picowal.KvFlash.Index.{
  Index, Entry, Found, found, absent, page_of, idx_find_linear, idx_set, idx_remove, idx_get,
}
use picowal.KvFlash.Index.Refs.{sector_count}
use picowal.KvFlash.State.{
  Kv, sector_size, rec_prefix_size, page_hdr_size, record_magic, max_value, version_any, flag_comp,
  flag_tomb, page_addr,
}
use picowal.KvFlash.Record.{append_record, read_record}
use picowal.KvFlash.Deadlog.{deadlog_append}

-- `(cur_ver >= 0xFFFE) ? 1 : cur_ver + 1`
unfoldable pub next_version : ℕ → ℕ
next_version cur_ver = if leb 0xFFFE cur_ver then 1 else cur_ver + 1

abbrev pub version_of : Option Entry → ℕ
version_of none = 0
version_of (some e) = e.version

module _ (hw : Hw) where
  -- The old record's page goes to the dead log, if there was one.
  unfoldable pub bury_old : Kv → Option Entry → Kv
  bury_old s none = s
  bury_old s (some old) = (deadlog_append hw s (page_of old.loc)).1

  -- The new version, or `none` for a refusal.
  unfoldable pub kv_put_if_version : Kv → ℕ → List ℕ → ℕ → Option ℕ × Kv
  kv_put_if_version s key value expected_version =
      let old = idx_get s.index key in
      let cur_ver = version_of old in
      let mg = (s.mutation_group + 1) % 2 ^ 32 in
      let next_ver = next_version cur_ver in
      let (loc, s1) = append_record hw (record s { mutation_group = mg }) key value next_ver 0 mg in
      if ltb max_value (length value)
      then (none, s)
      else if not (expected_version == version_any) && not (expected_version == cur_ver)
      then (none, s)
      else (elim loc [
        | none ↦ (none, s1)
        | some new_loc ↦
            let (stored, ix) = idx_set s1.index key new_loc next_ver 0 in
            let s2 = record s1 { index = ix } in
            if stored then (some next_ver, bury_old s2 old) else (none, s2)
      ])

  unfoldable pub kv_put : Kv → ℕ → List ℕ → Bool × Kv
  kv_put s key value =
      let (r, s') = kv_put_if_version s key value version_any in
      (elim r [ none ↦ false | some _ ↦ true ], s')

  unfoldable pub kv_get_copy : Kv → ℕ → ℕ → Option (List ℕ × ℕ)
  kv_get_copy s key cap = elim (idx_get s.index key) [
    | none ↦ none
    | some e ↦ read_record hw s.mem e.loc key cap
  ]

  -- `scratch` has room for 508 bytes.
  unfoldable pub kv_get : Kv → ℕ → Option (List ℕ)
  kv_get s key = elim (kv_get_copy s key max_value) [ none ↦ none | some (v, _) ↦ some v ]

  -- The version of the tombstone is a uint16.
  unfoldable pub kv_delete : Kv → ℕ → Bool × Kv
  kv_delete s key = elim (idx_get s.index key) [
    | none ↦ (false, s)
    | some old ↦
        let mg = (s.mutation_group + 1) % 2 ^ 32 in
        let (loc, s1) =
          append_record hw (record s { mutation_group = mg }) key [] ((old.version + 1) % 2 ^ 16)
            flag_tomb mg in
        elim loc [
          | none ↦ (false, s1)
          | some _ ↦
              let s2 = record s1 { index = idx_remove s1.index key } in
              (true, (deadlog_append hw s2 (page_of old.loc)).1)
        ]
  ]

-- The stored bytes as they are, their decoded length, and whether they are compressed.
pub record Raw : Type 0 where
  pub bytes : List ℕ
  pub raw_len : ℕ
  pub is_compressed : Bool

unfoldable pub kv_get_raw : Kv → ℕ → Option Raw
kv_get_raw s key = elim (idx_get s.index key) [
  | none ↦ none
  | some e ↦
      let l = unpack_loc e.loc in
      let m = s.mem in
      let r = page_addr l.page + l.off_bytes in
      let flags = m (r + 20) in
      let stored = read_bytes m (r + rec_prefix_size) (read16 m (r + 16)) in
      if leb sector_count l.page
      then none
      else if (if read32 m (r + 6) == record_magic then read32 m (r + 10) == key else false)
      then (if bit_and flags flag_tomb == 0
          then (if crc32 stored == read32 m (r + 22)
              then some (record {
                bytes = stored;
                raw_len = read16 m (r + 14);
                is_compressed = not (bit_and flags flag_comp == 0);
              })
              else none)
          else none)
      else none
]

unfoldable pub kv_exists : Kv → ℕ → Bool
kv_exists s key = elim (idx_find_linear s.index.entries key) [ found _ ↦ true | absent _ ↦ false ]
