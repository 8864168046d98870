-- ===== src/KvFlash/Recover/Marker.antt =====
-- The commit marker of a record in the flash.
use picowal.Prelude.{
  ℕ, ◌+◌, ◌-◌, ◌^◌, ◌<◌, ◌≤◌, ◌≡◌, List, [], ◌∷◌, ◌++◌, arith, length, replicate, length-replicate,
}
use picowal.Crc.{crc32}
use picowal.Crc.Bounds.{crc32-lt}
use picowal.KvFlash.Hw.{Mem}
use picowal.KvFlash.Bytes.{
  le16, le32, read16, read32, read_bytes, Holds, read16-Holds, read32-Holds, Holds-prefix,
  read_bytes-Holds,
}
use picowal.KvFlash.State.{commit_magic, record_magic, rec_prefix_size, commit_aligned}
use picowal.KvFlash.Record.{Stored, align4, rec_prefix, commit_rec, program_buf}

Holds-suffix :
    (m : Mem) (a b : ℕ) (xs ys : List ℕ) → b ≡ a + length xs → Holds m a (xs ++ ys) → Holds m b ys
Holds-suffix m a b [] ys e h = let p : b ≡ a = omega arith in rw p h
Holds-suffix m a b (x ∷ xs) ys e h = Holds-suffix m (a + 1) b xs ys (omega arith) h.1

length-rec_prefix :
    (mg key raw_len version : ℕ) (stored : Stored)
    → length (rec_prefix mg key raw_len version stored) ≡ 26
unfolding rec_prefix le16 le32
length-rec_prefix mg key raw_len version stored = omega arith

-- What the fields of the marker at `c` read.
pub record IsMarker (m : Mem) (c mg : ℕ) : Type 0 where
  pub rec_len : read16 m c ≡ commit_aligned
  pub group : read32 m (c + 2) ≡ mg
  pub magic : read32 m (c + 6) ≡ commit_magic
  pub checksum : read32 m (c + 10) ≡ crc32 (read_bytes m (c + 2) 8)

Holds-IsMarker :
    (m : Mem) (c mg : ℕ) (rest : List ℕ)
    → mg < 2 ^ 32
    → Holds m c (commit_rec mg ++ rest)
    → IsMarker m c mg
unfolding commit_rec le16 le32
Holds-IsMarker m c mg rest hmg h =
    let sum = crc32 (le32 mg ++ le32 commit_magic) in
    let t1 : List ℕ = le32 sum ++ rest in
    let f0 =
      read16-Holds m c (c + 2) 16 (le32 mg ++ (le32 commit_magic ++ t1)) h (omega arith)
        (omega arith) in
    let f1 = read32-Holds m (c + 2) (c + 6) mg (le32 commit_magic ++ t1) f0.1 hmg (omega arith) in
    let f2 = read32-Holds m (c + 6) (c + 10) commit_magic t1 f1.1 (omega arith) (omega arith) in
    let f3 =
      read32-Holds m (c + 10) (c + 14) sum rest f2.1 (crc32-lt (le32 mg ++ le32 commit_magic))
        (omega arith) in
    let covered : read_bytes m (c + 2) 8 ≡ le32 mg ++ le32 commit_magic =
      read_bytes-Holds m (c + 2) (le32 mg ++ le32 commit_magic)
        (Holds-prefix m (c + 2) (le32 mg ++ le32 commit_magic) t1 f0.1) in
    record { rec_len = f0.0; group = f1.0; magic = f2.0; checksum = rw covered f3.0 }

module _ (m : Mem) (r mg key raw_len version : ℕ) (stored : Stored) (hmg : mg < 2 ^ 32)
    (hs : length stored.bytes ≤ 508)
    (h : Holds m r (program_buf mg key raw_len version stored)) where
  pub program_buf-group : read32 m (r + 2) ≡ mg
  unfolding program_buf rec_prefix le16 le32
  program_buf-group =
      let n = rec_prefix_size + length stored.bytes in
      let fields : List ℕ =
        le32 record_magic
        ++ (le32 key
            ++ (le16 raw_len
                ++ (le16 (length stored.bytes)
                    ++ (le16 version ++ (stored.flags ∷ 0 ∷ le32 (crc32 stored.bytes)))))) in
      let rest : List ℕ =
        fields
        ++ (stored.bytes
            ++ (replicate (align4 n - n) 0xFF ++ (commit_rec mg ++ (0xFF ∷ 0xFF ∷ [])))) in
      (read32-Holds m (r + 2) (r + 6) mg rest
        (Holds-suffix m r (r + 2) (le16 n) (le32 mg ++ rest) (omega arith) h) hmg (omega arith)).0

  pub program_buf-IsMarker : IsMarker m (r + align4 (rec_prefix_size + length stored.bytes)) mg
  unfolding program_buf align4
  program_buf-IsMarker =
      let n = rec_prefix_size + length stored.bytes in
      let gap : List ℕ = replicate (align4 n - n) 0xFF in
      let len : length gap ≡ align4 n - n = length-replicate {A = ℕ} (align4 n - n) 0xFF in
      let after_prefix =
        Holds-suffix m r (r + 26) (rec_prefix mg key raw_len version stored) _
          (omega (arith, length-rec_prefix mg key raw_len version stored)) h in
      let after_stored =
        Holds-suffix m (r + 26) (r + n) stored.bytes _ (omega arith) after_prefix in
      let after_gap = Holds-suffix m (r + n) (r + align4 n) gap _ (omega arith) after_stored in
      Holds-IsMarker m (r + align4 n) mg (0xFF ∷ 0xFF ∷ []) hmg after_gap
