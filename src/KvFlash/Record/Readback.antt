-- ===== src/KvFlash/Record/Readback.antt =====
-- `encode` and `read_record` of src/kv_flash.c together.
use Prim.Native.Nat.{bit_and}
use picowal.Prelude.{
  ℕ, ◌+◌, ◌<◌, ◌≤◌, ◌≡◌, refl, ap, ◌∙◌, inl, inr, List, some, arith, length, leb, ltb, Option-cases,
  Bool-cases,
}
use picowal.KvFlash.Hw.{Mem, Hw, HwLaws}
use picowal.KvFlash.Loc.{unpack_loc}
use picowal.KvFlash.Index.Refs.{sector_count}
use picowal.KvFlash.State.{sector_size, rec_prefix_size, max_value, flag_comp, flag_tomb, page_addr}
use picowal.KvFlash.Record.{Stored, encode, decode_picocompress, read_record}
use picowal.KvFlash.Record.Layout.{IsRecord}

-- The stored form of a value: as it is, or compressed.
pub data IsEncoding (hw : Hw) (raw : List ℕ) (stored : Stored) : Type 0 where
  plain : stored.bytes ≡ raw → stored.flags ≡ 0 → IsEncoding hw raw stored
  packed :
      hw.decompress stored.bytes (length raw) ≡ some raw
      → stored.flags ≡ 1
      → IsEncoding hw raw stored

module _ {hw : Hw} (laws : HwLaws hw) (raw : List ℕ) where
  pub encode-IsEncoding : IsEncoding hw raw (encode hw raw 0)
  unfolding encode
  encode-IsEncoding = elim (Bool-cases (leb 64 (length raw))) [
    | inr e ↦ rw (e, encode) (plain refl refl)
    | inl e ↦ elim (Option-cases (hw.compress raw 572)) [
      | inl f ↦ rw (e, f, encode) (plain refl refl)
      | inr (enc, f) ↦ elim (Bool-cases (ltb (length enc) (length raw))) [
        | inr g ↦ rw (e, f, g, encode) (plain refl refl)
        | inl g ↦ rw (e, f, g, encode) (packed (laws.decompress-compress raw enc 572 f) refl)
      ]
    ]
  ]

  pub length-encode : length (encode hw raw 0).bytes ≤ length raw
  unfolding encode
  length-encode = ground arith

decode_picocompress-eq :
    (hw : Hw) (bytes raw : List ℕ)
    → hw.decompress bytes (length raw) ≡ some raw
    → decode_picocompress hw bytes (length raw) ≡ some raw
unfolding decode_picocompress
decode_picocompress-eq hw bytes raw d = ground arith

module _ (hw : Hw) (m : Mem) (loc page off len key version cap : ℕ) (raw : List ℕ)
    (stored : Stored) where
  -- A record that lies within its page reads back as its value and version.
  pub read_record-IsRecord :
      unpack_loc loc ≡ record { page = page; off_bytes = off; len_bytes = len }
      → page < sector_count
      → off + (rec_prefix_size + length stored.bytes) ≤ sector_size
      → length stored.bytes ≤ max_value
      → length raw ≤ max_value
      → length raw ≤ cap
      → IsRecord m (page_addr page + off) key (length raw) version stored
      → IsEncoding hw raw stored
      → read_record hw m loc key cap ≡ some (raw, version)
  unfolding read_record
  read_record-IsRecord hl hp ho hs hr hc r (plain b f) = rw hl (
      ground (
        arith,
        r,
        ap (λ x. bit_and x flag_tomb) (r.flags ∙ f),
        ap (λ x. bit_and x flag_comp) (r.flags ∙ f),
        ap length b,
      ))
  read_record-IsRecord hl hp ho hs hr hc r (packed d f) = rw hl (
      ground (
        arith,
        r,
        ap (λ x. bit_and x flag_tomb) (r.flags ∙ f),
        ap (λ x. bit_and x flag_comp) (r.flags ∙ f),
        decode_picocompress-eq hw stored.bytes raw d,
      ))
