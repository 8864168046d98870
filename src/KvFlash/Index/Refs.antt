-- ===== src/KvFlash/Index/Refs.antt =====
-- The live-reference counts of the pages in src/kv_flash.c.
use picowal.Prelude.{
  ℕ, ◌+◌, ◌-◌, ◌<◌, ◌≤◌, ◌≡◌, ◌⊎◌, ◌&&◌, Option, none, some, List, [], ◌∷◌, arith, length, get_or,
  ltb, ◌==◌, if◌then◌else◌, length-set, get_or-set_self, get_or-set_ne,
}
use picowal.KvFlash.Index.{
  Entry, entry, Index, Found, found, absent, page_of, ref_dec, ref_inc, idx_find_linear, idx_set_at,
  idx_set, idx_remove_at, idx_remove,
}
use picowal.KvFlash.Index.Find.{Locates, IsSorted, idx_find_linear-Locates}
use picowal.KvFlash.Index.Sorted.{
  Ascending, lookup, insert, remove, IsSorted-Ascending, lookup_of_Above,
}
use picowal.KvFlash.Index.Table.{IsTable, lookup_of_Locates}

-- KV_SECTOR_COUNT
abbrev pub sector_count : ℕ
sector_count = 763

-- 1 if the entry stands on the page.
unfoldable pub on_page : ℕ → Entry → ℕ
on_page p e = if page_of e.loc == p then 1 else 0

unfoldable pub count_page : ℕ → List Entry → ℕ
count_page p [] = 0
count_page p (e ∷ es) = on_page p e + count_page p es

abbrev pub found_on : ℕ → Option Entry → ℕ
found_on p none = 0
found_on p (some e) = on_page p e

pub count_page-insert :
    (p : ℕ) (e : Entry) (es : List Entry)
    → Ascending es
    → count_page p (insert e es) + found_on p (lookup e.key es) ≡ count_page p es + on_page p e
unfolding count_page insert lookup
count_page-insert p e [] a = omega arith
count_page-insert p e (x ∷ es) a =
    ground (arith, lookup_of_Above x.key e.key es a.0, count_page-insert p e es a.1)

pub count_page-remove :
    (p k : ℕ) (es : List Entry)
    → count_page p (remove k es) + found_on p (lookup k es) ≡ count_page p es
unfolding count_page remove lookup
count_page-remove p k [] = omega arith
count_page-remove p k (x ∷ es) = ground (arith, count_page-remove p k es)

pub found_on-le-count_page :
    (p k : ℕ) (es : List Entry) → found_on p (lookup k es) ≤ count_page p es
unfolding count_page lookup
found_on-le-count_page p k [] = omega arith
found_on-le-count_page p k (x ∷ es) = ground (arith, found_on-le-count_page p k es)

-- The count of a page, or 255 for a page that had so many.
abbrev pub Counts : List ℕ → (ℕ → ℕ) → Type 0
Counts refs n =
    (p : ℕ) → p < sector_count → (get_or refs p 0 ≡ n p) × (n p < 255) ⊎ (get_or refs p 0 ≡ 255)

get_or-ref_inc :
    (refs : List ℕ) (q p : ℕ)
    → q < length refs
    → get_or (ref_inc refs q) p 0
      ≡ (if q == p && ltb (get_or refs p 0) 255 then get_or refs p 0 + 1 else get_or refs p 0)
unfolding ref_inc
get_or-ref_inc refs q p h = ground (
  arith,
  get_or-set_self refs q (get_or refs q 0 + 1) 0 h,
  get_or-set_ne refs q p (get_or refs q 0 + 1) 0,
)

get_or-ref_dec :
    (refs : List ℕ) (q p : ℕ)
    → q < length refs
    → get_or (ref_dec refs q) p 0
      ≡ (if q == p && ltb (get_or refs p 0) 255 then get_or refs p 0 - 1 else get_or refs p 0)
unfolding ref_dec
get_or-ref_dec refs q p h = ground (
  arith,
  get_or-set_self refs q (get_or refs q 0 - 1) 0 h,
  get_or-set_ne refs q p (get_or refs q 0 - 1) 0,
)

pub length-ref_inc : (refs : List ℕ) (q : ℕ) → length (ref_inc refs q) ≡ length refs
unfolding ref_inc
length-ref_inc refs q = ground (arith, length-set refs q (get_or refs q 0 + 1))

pub length-ref_dec : (refs : List ℕ) (q : ℕ) → length (ref_dec refs q) ≡ length refs
unfolding ref_dec
length-ref_dec refs q = ground (arith, length-set refs q (get_or refs q 0 - 1))

pub record IsCounted (ix : Index) : Type 0 where
  pub table : IsTable ix
  pub size : length ix.refs ≡ sector_count
  pub pages : (k : ℕ) (e : Entry) → lookup k ix.entries ≡ some e → page_of e.loc < sector_count
  pub counts : Counts ix.refs (λ p. count_page p ix.entries)

refs-idx_set_at :
    (r : Found) (ix : Index) (e : Entry)
    → Locates ix.entries e.key r
    → IsSorted ix.entries
    → (idx_set_at r ix e).1.refs ≡ (elim (lookup e.key ix.entries) [
      | none ↦ if (idx_set_at r ix e).0 then ref_inc ix.refs (page_of e.loc) else ix.refs
      | some o ↦ ref_inc (ref_dec ix.refs (page_of o.loc)) (page_of e.loc)
    ])
unfolding idx_set_at
refs-idx_set_at (found f) ix e l s =
    ground (arith, lookup_of_Locates ix.entries e.key (found f) s l)
refs-idx_set_at (absent p) ix e l s =
    ground (arith, lookup_of_Locates ix.entries e.key (absent p) s l)

pub refs-idx_set :
    (ix : Index) (key loc version flags : ℕ)
    → Ascending ix.entries
    → let (ok, ix') = idx_set ix key loc version flags in
      ix'.refs ≡ (elim (lookup key ix.entries) [
        | none ↦ if ok then ref_inc ix.refs (page_of loc) else ix.refs
        | some o ↦ ref_inc (ref_dec ix.refs (page_of o.loc)) (page_of loc)
      ])
unfolding idx_set
refs-idx_set ix key loc version flags a =
    refs-idx_set_at (idx_find_linear ix.entries key) ix (entry key loc version flags)
      (idx_find_linear-Locates ix.entries key sorted) sorted
  where
    sorted : IsSorted ix.entries
    sorted = IsSorted-Ascending ix.entries a

refs-idx_remove_at :
    (r : Found) (ix : Index) (key : ℕ)
    → Locates ix.entries key r
    → IsSorted ix.entries
    → (idx_remove_at r ix).refs
      ≡ (elim (lookup key ix.entries) [ none ↦ ix.refs | some o ↦ ref_dec ix.refs (page_of o.loc) ])
unfolding idx_remove_at
refs-idx_remove_at (found f) ix key l s =
    ground (arith, lookup_of_Locates ix.entries key (found f) s l)
refs-idx_remove_at (absent p) ix key l s =
    ground (arith, lookup_of_Locates ix.entries key (absent p) s l)

pub refs-idx_remove :
    (ix : Index) (key : ℕ)
    → Ascending ix.entries
    → (idx_remove ix key).refs
      ≡ (elim (lookup key ix.entries) [ none ↦ ix.refs | some o ↦ ref_dec ix.refs (page_of o.loc) ])
unfolding idx_remove
refs-idx_remove ix key a =
    refs-idx_remove_at (idx_find_linear ix.entries key) ix key
      (idx_find_linear-Locates ix.entries key sorted) sorted
  where
    sorted : IsSorted ix.entries
    sorted = IsSorted-Ascending ix.entries a

-- One entry more on a page, or one less.
pub Counts-ref_inc :
    (refs : List ℕ) (e : Entry) (n m : ℕ → ℕ)
    → page_of e.loc < length refs
    → ((p : ℕ) → m p ≡ n p + on_page p e)
    → Counts refs n
    → Counts (ref_inc refs (page_of e.loc)) m
unfolding on_page
Counts-ref_inc refs e n m h step c p hp =
    ground (arith, get_or-ref_inc refs (page_of e.loc) p h, step p, c p hp)

pub Counts-ref_dec :
    (refs : List ℕ) (e : Entry) (n m : ℕ → ℕ)
    → page_of e.loc < length refs
    → ((p : ℕ) → m p + on_page p e ≡ n p)
    → Counts refs n
    → Counts (ref_dec refs (page_of e.loc)) m
unfolding on_page
Counts-ref_dec refs e n m h step c p hp =
    ground (arith, get_or-ref_dec refs (page_of e.loc) p h, step p, c p hp)
