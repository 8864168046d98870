-- ===== src/KvFlash/Record.antt =====
-- The records of src/kv_flash.c: a record and its commit marker are appended together, and a record
-- is read back at its location.
pub mod Layout
pub mod Readback
pub mod Append
use Prim.Native.Nat.{bit_and, bit_or}
use picowal.Prelude.{
  ℕ, ◌+◌, ◌-◌, ◌*◌, ◌/◌, ◌%◌, ◌^◌, Bool, true, false, Option, none, some, List, [], ◌∷◌, ◌++◌,
  length, replicate, ltb, leb, ◌==◌, if◌then◌else◌,
}
use picowal.Crc.{crc32}
use picowal.KvFlash.Hw.{Mem, Hw}
use picowal.KvFlash.Bytes.{le16, le32, read16, read32, read_bytes}
use picowal.KvFlash.Loc.{pack_loc, unpack_loc}
use picowal.KvFlash.Index.Refs.{sector_count}
use picowal.KvFlash.State.{
  Kv, sector_size, rec_prefix_size, commit_aligned, record_magic, commit_magic, max_value,
  flag_comp, flag_tomb, page_addr,
}
use picowal.KvFlash.Page.{
  flash_program_aligned, ensure_page_ready, prewarm_next_append_page, select_append_page,
}

-- What `append_record` stores: the bytes, and the flags of the record.
pub record Stored : Type 0 where
  pub bytes : List ℕ
  pub flags : ℕ

-- `(rec_len + 3) & ~3`, a uint16
unfoldable pub align4 : ℕ → ℕ
align4 n = (n + 3) / 4 * 4 % 2 ^ 16

-- kv_rec_prefix_t: rec_len, mutation_group, then the kv_header_t.
unfoldable pub rec_prefix : ℕ → ℕ → ℕ → ℕ → Stored → List ℕ
rec_prefix mutation_group key raw_len version stored =
    le16 (rec_prefix_size + length stored.bytes)
    ++ (le32 mutation_group
        ++ (le32 record_magic
            ++ (le32 key
                ++ (le16 raw_len
                    ++ (le16 (length stored.bytes)
                        ++ (le16 version ++ (stored.flags ∷ 0 ∷ le32 (crc32 stored.bytes))))))))

-- kv_commit_rec_t
unfoldable pub commit_rec : ℕ → List ℕ
commit_rec mutation_group =
    le16 commit_aligned
    ++ (le32 mutation_group
        ++ (le32 commit_magic ++ le32 (crc32 (le32 mutation_group ++ le32 commit_magic))))

-- The programming buffer: the record, 0xFF up to its aligned length, the commit marker, and 0xFF up
-- to the marker's aligned length.
unfoldable pub program_buf : ℕ → ℕ → ℕ → ℕ → Stored → List ℕ
program_buf mutation_group key raw_len version stored =
    let rec_len = rec_prefix_size + length stored.bytes in
    rec_prefix mutation_group key raw_len version stored
    ++ (stored.bytes
        ++ (replicate (align4 rec_len - rec_len) 0xFF
            ++ (commit_rec mutation_group ++ (0xFF ∷ 0xFF ∷ []))))

abbrev with_version : ℕ → Option (List ℕ) → Option (List ℕ × ℕ)
with_version version none = none
with_version version (some out) = some (out, version)

module _ (hw : Hw) where
  -- The compressed bytes if the value has 64 bytes or more, the coder accepts it, and it gets shorter;
  -- the coder's output buffer has 508 + 64 bytes.
  unfoldable pub encode : List ℕ → ℕ → Stored
  encode raw flags =
      let plain : Stored = record { bytes = raw; flags = flags } in
      if leb 64 (length raw)
      then (elim (hw.compress raw 572) [
        | none ↦ plain
        | some enc ↦
            if ltb (length enc) (length raw)
            then record { bytes = enc; flags = bit_or flags flag_comp }
            else plain
      ])
      else plain

  unfoldable pub append_record : Kv → ℕ → List ℕ → ℕ → ℕ → ℕ → Option ℕ × Kv
  append_record s key raw version flags mutation_group =
      let stored = encode raw flags in
      let rec_len_aligned = align4 (rec_prefix_size + length stored.bytes) in
      let total = rec_len_aligned + commit_aligned in
      let (room, s1) = select_append_page s total in
      if room
      then (let s2 = ensure_page_ready hw s1 s1.write_page in
          let buf = program_buf mutation_group key (length raw) version stored in
          let m = flash_program_aligned hw s2.mem (page_addr s2.write_page + s2.write_off) buf in
          let s3 = record s2 { mem = m; write_off = (s2.write_off + total) % 2 ^ 16 } in
          (
            some (pack_loc s2.write_page s2.write_off rec_len_aligned),
            prewarm_next_append_page hw s3,
          ))
      else (none, s1)

  -- What the coder gives back, if it has the expected length.
  unfoldable pub decode_picocompress : List ℕ → ℕ → Option (List ℕ)
  decode_picocompress stored raw_len = elim (hw.decompress stored raw_len) [
    | none ↦ none
    | some out ↦ if length out == raw_len then some out else none
  ]

  -- The value of the record at `loc` and its version, if it is a record of `key` that is not a
  -- tombstone, has a plausible shape and its checksum, and fits `cap` bytes.
  unfoldable pub read_record : Mem → ℕ → ℕ → ℕ → Option (List ℕ × ℕ)
  read_record m loc key cap =
      let l = unpack_loc loc in
      let r = page_addr l.page + l.off_bytes in
      let rec_len = read16 m r in
      let raw_len = read16 m (r + 14) in
      let store_len = read16 m (r + 16) in
      let version = read16 m (r + 18) in
      let flags = m (r + 20) in
      let stored = read_bytes m (r + rec_prefix_size) store_len in
      if leb sector_count l.page
      then none
      else if (if read32 m (r + 6) == record_magic then read32 m (r + 10) == key else false)
      then (if bit_and flags flag_tomb == 0
          then (if ltb max_value raw_len
              then none
              else if ltb max_value store_len
              then none
              else if ltb rec_len rec_prefix_size
              then none
              else if ltb rec_len (rec_prefix_size + store_len)
              then none
              else if ltb sector_size (l.off_bytes + rec_len)
              then none
              else if crc32 stored == read32 m (r + 22)
              then (if ltb cap raw_len
                  then none
                  else if bit_and flags flag_comp == 0
                  then some (read_bytes m (r + rec_prefix_size) raw_len, version)
                  else with_version version (decode_picocompress stored raw_len))
              else none)
          else none)
      else none
