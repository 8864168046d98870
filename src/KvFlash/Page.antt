-- ===== src/KvFlash/Page.antt =====
-- The pages of src/kv_flash.c: programming, page headers, and the choice of the page to append to.
pub mod Program
pub mod Frame
use picowal.Prelude.{
  ℕ, zero, suc, ◌+◌, ◌-◌, ◌*◌, ◌/◌, ◌%◌, ◌^◌, Bool, true, false, ◌&&◌, ◌||◌, Option, none, some,
  List, [], ◌∷◌, ◌++◌, length, replicate, ltb, leb, ◌==◌, if◌then◌else◌,
}
use mathlib.Core.Bool.{not}
use picowal.Crc.{crc32}
use picowal.KvFlash.Hw.{Mem, Hw}
use picowal.KvFlash.Bytes.{le16, le32, read32, read_bytes}
use picowal.KvFlash.Index.Refs.{sector_count}
use picowal.KvFlash.State.{Kv, sector_size, free_word, page_hdr_size, page_magic, page_addr}

-- The pages that `flash_range_program` is given: what is not `bytes` is 0xFF.
unfoldable pub padded : ℕ → List ℕ → ℕ → List ℕ
padded intra bytes prog_len =
    replicate intra 0xFF ++ (bytes ++ replicate (prog_len - intra - length bytes) 0xFF)

-- `prog_len`, a uint16
abbrev pub prog_len : ℕ → ℕ → ℕ
prog_len intra len = (intra + len + 255) / 256 * 256 % 2 ^ 16

-- The twelve bytes that the header's checksum covers, with the state NEW, and the header.
unfoldable pub page_hdr_prefix : ℕ → List ℕ
page_hdr_prefix sequence = le32 page_magic ++ (1 ∷ 1 ∷ 0 ∷ 0 ∷ le32 sequence)

unfoldable pub page_hdr : ℕ → List ℕ
page_hdr sequence = page_hdr_prefix sequence ++ le32 (crc32 (page_hdr_prefix sequence))

-- The first 256 bytes of a fresh page, `hdrbuf`.
unfoldable pub hdrbuf : ℕ → List ℕ
hdrbuf sequence = page_hdr sequence ++ replicate 240 0xFF

-- `ph->magic == KV_PAGE_MAGIC_V2 && ph->version == KV_PAGE_VERSION_1` and the checksum of the header.
unfoldable pub header_valid : Mem → ℕ → Bool
header_valid m page =
    let a = page_addr page in
    (read32 m a == page_magic)
    && (m (a + 4) == 1)
    && (crc32 (read_bytes m a 12) == read32 m (a + 12))

unfoldable pub page_is_prepared_empty : Mem → ℕ → Bool
page_is_prepared_empty m page =
    (read32 m (page_addr page) == page_magic)
    && (read32 m (page_addr page + page_hdr_size) == 0xFFFF_FFFF)

-- `ph->magic == KV_FREE || ph->magic != KV_PAGE_MAGIC_V2 || page_is_prepared_empty(cand)`
unfoldable pub can_append : Mem → ℕ → Bool
can_append m page =
    (read32 m (page_addr page) == free_word)
    || not (read32 m (page_addr page) == page_magic)
    || page_is_prepared_empty m page

-- The loop, with `n` candidates left from `start + i` on.
unfoldable pub find_next_loop : ℕ → Mem → ℕ → ℕ → Option ℕ
find_next_loop zero m start i = none
find_next_loop (suc n) m start i =
    let cand = (start + i) % sector_count in
    let rest = find_next_loop n m start (i + 1) in if can_append m cand then some cand else rest

unfoldable pub find_next_append_page : Mem → ℕ → Option ℕ
find_next_append_page m start_page = find_next_loop sector_count m start_page 1

-- The page to append `need` bytes to, in the state; `false` if there is none.
unfoldable pub select_append_page : Kv → ℕ → Bool × Kv
select_append_page s need =
    if leb (s.write_off + need) sector_size
      && ((read32 s.mem (page_addr s.write_page) == page_magic)
          || (read32 s.mem (page_addr s.write_page) == free_word))
    then (true, s)
    else (elim (find_next_append_page s.mem s.write_page) [
      | none ↦ (false, s)
      | some cand ↦ (true, record s { write_page = cand; write_off = page_hdr_size })
    ])

module _ (hw : Hw) where
  -- A range that would need more than the 768 bytes of the buffer is not programmed at all.
  unfoldable pub flash_program_aligned : Mem → ℕ → List ℕ → Mem
  flash_program_aligned m flash_off bytes =
      let page_start = flash_off / 256 * 256 in
      let intra = flash_off % 256 in
      let n = prog_len intra (length bytes) in
      if ltb 768 n then m else hw.program m page_start (padded intra bytes n)

  -- It returns true on every path.
  unfoldable pub ensure_page_ready : Kv → ℕ → Kv
  ensure_page_ready s page =
      if header_valid s.mem page
      then s
      else (let sequence = (s.page_sequence + 1) % 2 ^ 32 in
          let a = page_addr page in
          let m = if read32 s.mem a == free_word then s.mem else hw.erase s.mem a sector_size in
          record s { mem = hw.program m a (hdrbuf sequence); page_sequence = sequence })

  unfoldable pub prewarm_next_append_page : Kv → Kv
  prewarm_next_append_page s = elim (find_next_append_page s.mem s.write_page) [
    | none ↦ s
    | some next_page ↦
        if next_page == s.write_page
        then s
        else if read32 s.mem (page_addr next_page) == free_word
        then ensure_page_ready s next_page
        else s
  ]
