-- ===== src/KvFlash/Page/Frame.antt =====
-- The parts of the state that the preparation of a page in src/kv_flash.c does not concern.
use picowal.Prelude.{
  ℕ, ◌+◌, ◌-◌, ◌%◌, ◌^◌, ◌<◌, ◌≤◌, ◌≡◌, ◌⊎◌, refl, arith, length, get_or_beyond, Option-cases, inl,
  inr, ◌==◌, if◌then◌else◌,
}
use picowal.KvFlash.Hw.{Mem, Hw, HwLaws}
use picowal.KvFlash.Bytes.{le32, read32}
use picowal.KvFlash.State.{Kv, free_word, sector_size, page_addr}
use picowal.KvFlash.Page.{
  page_hdr_prefix, page_hdr, hdrbuf, find_next_append_page, ensure_page_ready,
  prewarm_next_append_page,
}

length-hdrbuf : (sequence : ℕ) → length (hdrbuf sequence) ≡ 256
unfolding hdrbuf page_hdr page_hdr_prefix le32
length-hdrbuf sequence = refl

module _ {hw : Hw} (laws : HwLaws hw) (s : Kv) where
  pub mem-ensure_page_ready :
      (page a : ℕ)
      → (a < page_addr page) ⊎ (page_addr page + sector_size ≤ a)
      → (ensure_page_ready hw s page).mem a ≡ s.mem a
  unfolding ensure_page_ready
  mem-ensure_page_ready page a out = ground (
    arith,
    laws.erase_below s.mem (page_addr page) sector_size a,
    laws.erase_above s.mem (page_addr page) sector_size a,
    laws.program_below m (page_addr page) (hdrbuf sequence) a,
    laws.program_ones m (page_addr page) (hdrbuf sequence) a,
    get_or_beyond (hdrbuf sequence) (a - page_addr page) 0xFF,
    length-hdrbuf sequence,
  )
    where
      sequence : ℕ
      sequence = (s.page_sequence + 1) % 2 ^ 32

      m : Mem
      m =
          if read32 s.mem (page_addr page) == free_word
          then s.mem
          else hw.erase s.mem (page_addr page) sector_size

  pub index-ensure_page_ready : (page : ℕ) → (ensure_page_ready hw s page).index ≡ s.index
  unfolding ensure_page_ready
  index-ensure_page_ready page = ground arith

  pub mem-prewarm :
      (a : ℕ)
      → page_addr s.write_page ≤ a
      → a < page_addr s.write_page + sector_size
      → (prewarm_next_append_page hw s).mem a ≡ s.mem a
  unfolding prewarm_next_append_page
  mem-prewarm a lo hi = elim (Option-cases (find_next_append_page s.mem s.write_page)) [
    | inl e ↦ rw (e, prewarm_next_append_page) refl
    | inr (p, e) ↦ rw (e, prewarm_next_append_page) (ground (arith, mem-ensure_page_ready p a))
  ]

  pub index-prewarm : (prewarm_next_append_page hw s).index ≡ s.index
  unfolding prewarm_next_append_page
  index-prewarm = elim (Option-cases (find_next_append_page s.mem s.write_page)) [
    | inl e ↦ rw (e, prewarm_next_append_page) refl
    | inr (p, e) ↦ rw (e, prewarm_next_append_page) (ground (arith, index-ensure_page_ready p))
  ]
