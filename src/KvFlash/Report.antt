-- ===== src/KvFlash/Report.antt =====
-- What src/kv_flash.c reports of its records: `kv_range`, `kv_record_count`, `kv_type_counts`,
-- `kv_stats`; and `kv_reclaim`.
pub mod Range
use Prim.Native.Nat.{bit_and}
use picowal.Prelude.{
  ℕ, zero, suc, ◌+◌, ◌-◌, ◌/◌, ◌%◌, ◌^◌, Bool, true, false, ◌&&◌, List, [], ◌∷◌, length, get_or,
  set, replicate, ltb, leb, ◌==◌, if◌then◌else◌,
}
use picowal.KvFlash.Hw.{Mem, Hw}
use picowal.KvFlash.Bytes.{read32}
use picowal.KvFlash.Index.{Entry, Index, page_of}
use picowal.KvFlash.Index.Refs.{sector_count}
use picowal.KvFlash.State.{Kv, page_magic, page_addr}
use picowal.KvFlash.Deadlog.{kv_compact_step}

-- `(g_keys[i] & prefix_mask) == (key_prefix & prefix_mask)`
unfoldable pub in_range : ℕ → ℕ → Entry → Bool
in_range key_prefix prefix_mask e = bit_and e.key prefix_mask == bit_and key_prefix prefix_mask

-- The loop, with room for `budget` results; a result is a key and its page.
unfoldable pub range_loop : List Entry → ℕ → ℕ → ℕ → List (ℕ × ℕ)
range_loop [] key_prefix prefix_mask budget = []
range_loop (e ∷ es) key_prefix prefix_mask zero = []
range_loop (e ∷ es) key_prefix prefix_mask (suc budget) =
    let hit = range_loop es key_prefix prefix_mask budget in
    let miss = range_loop es key_prefix prefix_mask (suc budget) in
    if in_range key_prefix prefix_mask e then (e.key, page_of e.loc) ∷ hit else miss

unfoldable pub kv_range : Kv → ℕ → ℕ → ℕ → List (ℕ × ℕ)
kv_range s key_prefix prefix_mask max_results =
    range_loop s.index.entries key_prefix prefix_mask max_results

unfoldable pub kv_record_count : Kv → ℕ
kv_record_count s = length s.index.entries

-- The counts so far, the last type first.
unfoldable pub count_type : List (ℕ × ℕ) → ℕ → List (ℕ × ℕ)
count_type [] t = []
count_type ((u, n) ∷ counts) t = (u, n + 1) ∷ counts

-- The loop; `prev` is prev_type.
unfoldable pub type_loop : List Entry → List (ℕ × ℕ) → ℕ → ℕ → List (ℕ × ℕ)
type_loop [] counts prev max_types = counts
type_loop (e ∷ es) counts prev max_types =
    let t = e.key / 2 ^ 22 % 2 ^ 16 in
    let same = type_loop es (count_type counts t) prev max_types in
    let next = type_loop es ((t, 1) ∷ counts) t max_types in
    if (t == prev) && ltb 0 (length counts)
    then same
    else if leb max_types (length counts)
    then counts
    else next

-- The types and their counts, the last type first.
unfoldable pub kv_type_counts : Kv → ℕ → List (ℕ × ℕ)
kv_type_counts s max_types = type_loop s.index.entries [] 0xFFFF max_types

-- The loop over the index: `live` is live_pages, of 1 for true; the result is indexed_pages.
unfoldable pub indexed_loop : List Entry → List ℕ → ℕ → ℕ
indexed_loop [] live indexed_pages = indexed_pages
indexed_loop (e ∷ es) live indexed_pages =
    let page = page_of e.loc in
    let fresh = indexed_loop es (set live page 1) (indexed_pages + 1) in
    let rest = indexed_loop es live indexed_pages in
    if ltb page sector_count && (get_or live page 0 == 0) then fresh else rest

-- The loop over the pages, `n` of them left; the result is header_pages.
unfoldable pub header_loop : ℕ → Mem → ℕ → ℕ → ℕ
header_loop zero m page header_pages = header_pages
header_loop (suc n) m page header_pages =
    header_loop n m (page + 1)
      (if read32 m (page_addr page) == page_magic then header_pages + 1 else header_pages)

pub record Stats : Type 0 where
  pub active : ℕ
  pub dead : ℕ
  pub free : ℕ
  pub total : ℕ

unfoldable pub kv_stats : Kv → Stats
kv_stats s =
    let indexed_pages = indexed_loop s.index.entries (replicate sector_count 0) 0 in
    let header_pages = header_loop sector_count s.mem 0 0 in
    let used_pages = if ltb indexed_pages header_pages then header_pages else indexed_pages in
    record {
      active = length s.index.entries;
      dead = if ltb indexed_pages header_pages then header_pages - indexed_pages else 0;
      free = if leb used_pages sector_count then sector_count - used_pages else 0;
      total = sector_count;
    }

module _ (hw : Hw) where
  -- The loop of `kv_reclaim`: a round that goes on erased a page that was not blank.
  unfoldable pub reclaim_loop : ℕ → Kv → ℕ → ℕ × Kv
  reclaim_loop zero s n = (n, s)
  reclaim_loop (suc fuel) s n =
      let (more, s') = kv_compact_step hw s in
      let rest = reclaim_loop fuel s' (n + 1) in if more then rest else (n, s')

  unfoldable pub kv_reclaim : Kv → ℕ × Kv
  kv_reclaim s = reclaim_loop (sector_count + 1) s 0
