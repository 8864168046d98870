-- ===== src/KvFlash/Record/Layout.antt =====
-- The layout of a record in the flash, and reading it back.
use picowal.Prelude.{
  ℕ, ◌+◌, ◌-◌, ◌^◌, ◌<◌, ◌≤◌, ◌≡◌, List, [], ◌∷◌, ◌++◌, arith, length, replicate, length-append,
  length-replicate,
}
use picowal.Crc.{crc32}
use picowal.Crc.Bounds.{crc32-lt}
use picowal.KvFlash.Hw.{Mem}
use picowal.KvFlash.Bytes.{
  le16, le32, read16, read32, read_bytes, Holds, read16-Holds, read32-Holds, Holds-prefix,
  read_bytes-Holds,
}
use picowal.KvFlash.State.{record_magic, rec_prefix_size, commit_aligned}
use picowal.KvFlash.Record.{Stored, align4, rec_prefix, commit_rec, program_buf}

pub length-program_buf :
    (mg key raw_len version : ℕ) (stored : Stored)
    → length stored.bytes ≤ 508
    → length (program_buf mg key raw_len version stored)
      ≡ align4 (rec_prefix_size + length stored.bytes) + commit_aligned
unfolding program_buf rec_prefix commit_rec align4 le16 le32
length-program_buf mg key raw_len version stored h = omega (
  arith,
  length-append stored.bytes (replicate gap 0xFF ++ tail),
  length-append (replicate gap 0xFF) tail,
  length-replicate {A = ℕ} gap 0xFF,
)
  where
    gap : ℕ
    gap = align4 (26 + length stored.bytes) - (26 + length stored.bytes)

    tail : List ℕ
    tail = commit_rec mg ++ (0xFF ∷ 0xFF ∷ [])

-- What the fields at `r` read.
pub record IsRecord (m : Mem) (r key raw_len version : ℕ) (stored : Stored) : Type 0 where
  pub rec_len : read16 m r ≡ rec_prefix_size + length stored.bytes
  pub magic : read32 m (r + 6) ≡ record_magic
  pub key_field : read32 m (r + 10) ≡ key
  pub raw_len_field : read16 m (r + 14) ≡ raw_len
  pub store_len : read16 m (r + 16) ≡ length stored.bytes
  pub version_field : read16 m (r + 18) ≡ version
  pub flags : m (r + 20) ≡ stored.flags
  pub checksum : read32 m (r + 22) ≡ crc32 stored.bytes
  pub stored_bytes : read_bytes m (r + rec_prefix_size) (length stored.bytes) ≡ stored.bytes

pub Holds-IsRecord :
    (m : Mem) (r mg key raw_len version : ℕ) (stored : Stored)
    → mg < 2 ^ 32
    → key < 2 ^ 32
    → raw_len ≤ 508
    → version < 2 ^ 16
    → length stored.bytes ≤ 508
    → Holds m r (program_buf mg key raw_len version stored)
    → IsRecord m r key raw_len version stored
unfolding program_buf rec_prefix le16 le32
Holds-IsRecord m r mg key raw_len version stored hmg hk hr hv hs h =
    let rec_len = rec_prefix_size + length stored.bytes in
    let t8 : List ℕ =
      replicate (align4 rec_len - rec_len) 0xFF ++ (commit_rec mg ++ (0xFF ∷ 0xFF ∷ [])) in
    let t7 : List ℕ = stored.bytes ++ t8 in
    let t6 : List ℕ = le32 (crc32 stored.bytes) ++ t7 in
    let t5 : List ℕ = stored.flags ∷ 0 ∷ t6 in
    let t4 : List ℕ = le16 version ++ t5 in
    let t3 : List ℕ = le16 (length stored.bytes) ++ t4 in
    let t2 : List ℕ = le16 raw_len ++ t3 in
    let t1 : List ℕ = le32 key ++ t2 in
    let t0 : List ℕ = le32 record_magic ++ t1 in
    let f0 = read16-Holds m r (r + 2) rec_len (le32 mg ++ t0) h (omega arith) (omega arith) in
    let f1 = read32-Holds m (r + 2) (r + 6) mg t0 f0.1 hmg (omega arith) in
    let f2 = read32-Holds m (r + 6) (r + 10) record_magic t1 f1.1 (omega arith) (omega arith) in
    let f3 = read32-Holds m (r + 10) (r + 14) key t2 f2.1 hk (omega arith) in
    let f4 = read16-Holds m (r + 14) (r + 16) raw_len t3 f3.1 (omega arith) (omega arith) in
    let f5 =
      read16-Holds m (r + 16) (r + 18) (length stored.bytes) t4 f4.1 (omega arith) (omega arith) in
    let f6 = read16-Holds m (r + 18) (r + 20) version t5 f5.1 hv (omega arith) in
    let e : r + 22 ≡ r + 20 + 1 + 1 = omega arith in
    let k : Holds m (r + 22) t6 = rw e f6.1.1.1 in
    let f7 =
      read32-Holds m (r + 22) (r + 26) (crc32 stored.bytes) t7 k (crc32-lt stored.bytes)
        (omega arith) in
    record {
      rec_len = f0.0;
      magic = f2.0;
      key_field = f3.0;
      raw_len_field = f4.0;
      store_len = f5.0;
      version_field = f6.0;
      flags = f6.1.0;
      checksum = f7.0;
      stored_bytes =
          read_bytes-Holds m (r + 26) stored.bytes (Holds-prefix m (r + 26) stored.bytes t8 f7.1);
    }
