-- ===== src/KvFlash/Loc.antt =====
-- `pack_loc` and `unpack_loc` of src/kv_flash.c: a location [page:12 | off_q:10 | len_q:10] in one
-- uint32, offset and length in units of four bytes. A mask of k ones is `% 2 ^ k`, a shift is `*` or
-- `/`, and `|` of fields that do not overlap is `+`.
use picowal.Prelude.{ℕ, ◌+◌, ◌*◌, ◌/◌, ◌%◌, ◌^◌, ◌<◌, ◌≤◌, ◌≡◌, arith, ltb, if◌then◌else◌}

pub record Loc : Type 0 where
  pub page : ℕ
  pub off_bytes : ℕ
  pub len_bytes : ℕ

abbrev mask10 : ℕ
mask10 = 1023

unfoldable pub clamp10 : ℕ → ℕ
clamp10 q = if ltb mask10 q then mask10 else q

unfoldable pub pack_loc : ℕ → ℕ → ℕ → ℕ
unfolding clamp10
pack_loc page off_bytes len_bytes =
    let off_q = clamp10 (off_bytes / 4 % 2 ^ 16) in
    let len_q = clamp10 ((len_bytes + 3) / 4 % 2 ^ 16) in
    page % 2 ^ 12 * 2 ^ 20 + off_q % 2 ^ 10 * 2 ^ 10 + len_q % 2 ^ 10

unfoldable pub unpack_loc : ℕ → Loc
unpack_loc loc = record {
  page = loc / 2 ^ 20 % 2 ^ 12;
  off_bytes = loc / 2 ^ 10 % 2 ^ 10 * 4;
  len_bytes = loc % 2 ^ 10 * 4;
}

-- A location of a page below 4096, at an offset below 4096 that is a multiple of four, of at most
-- 4092 bytes, is unpacked as it was packed, its length rounded up to a multiple of four; and the
-- packed location fits 32 bits.
pub unpack_loc-pack_loc :
    (page off_q len : ℕ)
    → page < 4096
    → off_q < 1024
    → len ≤ 4092
    → (unpack_loc (pack_loc page (off_q * 4) len)
        ≡ record { page = page; off_bytes = off_q * 4; len_bytes = (len + 3) / 4 * 4 })
      × (pack_loc page (off_q * 4) len < 2 ^ 32)
unfolding pack_loc unpack_loc
unpack_loc-pack_loc page off_q len hp ho hl = ground arith
