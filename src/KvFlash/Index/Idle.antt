-- ===== src/KvFlash/Index/Idle.antt =====
-- The pages without live references, and the index of src/kv_flash.c.
use picowal.Prelude.{
  ℕ, ◌-◌, ◌<◌, ◌≡◌, ◌≢◌, inl, inr, ◌∙◌, ap, true, false, none, some, [], arith, length, replicate,
  Option-cases, Bool-cases, length-replicate, get_or-replicate,
}
use picowal.KvFlash.Index.{
  Entry, entry, Index, page_of, ref_dec, ref_inc, idx_set, idx_remove, idx_get, page_has_live_refs,
}
use picowal.KvFlash.Index.Sorted.{lookup, insert, remove, lookup-insert, lookup-remove}
use picowal.KvFlash.Index.Table.{
  idx_get-eq-lookup, idx_set-entries, idx_set-IsTable, idx_remove-entries, idx_remove-IsTable,
}
use picowal.KvFlash.Index.Refs.{
  sector_count, on_page, count_page, Counts, IsCounted, count_page-insert, count_page-remove,
  found_on-le-count_page, length-ref_inc, length-ref_dec, refs-idx_set, refs-idx_remove,
  Counts-ref_inc, Counts-ref_dec,
}

pub idx_remove-IsCounted : (ix : Index) (key : ℕ) → IsCounted ix → IsCounted (idx_remove ix key)
idx_remove-IsCounted ix key c = elim (Option-cases (lookup key ix.entries)) [
  | inl p ↦
      let q : (idx_remove ix key).entries ≡ ix.entries =
        ground (arith, idx_remove-entries ix key c.table.ascending) in
      let r : (idx_remove ix key).refs ≡ ix.refs =
        ground (arith, refs-idx_remove ix key c.table.ascending) in
      record {
        table = idx_remove-IsTable ix key c.table;
        size = rw r c.size;
        pages = rw q c.pages;
        counts = rw (q, r) c.counts;
      }
  | inr (o, p) ↦
      let q : (idx_remove ix key).entries ≡ remove key ix.entries =
        ground (arith, idx_remove-entries ix key c.table.ascending) in
      let r : (idx_remove ix key).refs ≡ ref_dec ix.refs (page_of o.loc) =
        ground (arith, refs-idx_remove ix key c.table.ascending) in
      record {
        table = idx_remove-IsTable ix key c.table;
        size = rw r (length-ref_dec ix.refs (page_of o.loc) ∙ c.size);
        pages = λ k e h.
            ground (
              arith,
              lookup-remove key ix.entries k c.table.ascending,
              ap (lookup k) q,
              c.pages k e,
            );
        counts =
            rw (q, r)
              (Counts-ref_dec ix.refs o _ _ (rw c.size (c.pages key o p))
                (λ t. ground (arith, count_page-remove t key ix.entries)) c.counts);
      }
]

module _ (ix : Index) (key loc version flags : ℕ) (hp : page_of loc < sector_count)
    (c : IsCounted ix) where
  abbrev e' : Entry
  e' = entry key loc version flags

  abbrev ix' : Index
  ix' = (idx_set ix key loc version flags).1

  pages-insert :
      ix'.entries ≡ insert e' ix.entries
      → (k : ℕ) (e : Entry) → lookup k ix'.entries ≡ some e
      → page_of e.loc < sector_count
  pages-insert q k e h = ground (arith, lookup-insert e' ix.entries k, ap (lookup k) q, c.pages k e)

  idx_set-IsCounted_new :
      lookup key ix.entries ≡ none → (idx_set ix key loc version flags).0 ≡ true → IsCounted ix'
  idx_set-IsCounted_new p ok =
      let q : ix'.entries ≡ insert e' ix.entries =
        ground (arith, idx_set-entries ix key loc version flags c.table) in
      let r : ix'.refs ≡ ref_inc ix.refs (page_of loc) =
        ground (arith, refs-idx_set ix key loc version flags c.table.ascending) in
      record {
        table = idx_set-IsTable ix key loc version flags c.table;
        size = rw r (length-ref_inc ix.refs (page_of loc) ∙ c.size);
        pages = pages-insert q;
        counts =
            rw (q, r)
              (Counts-ref_inc ix.refs e' _ _ (rw c.size hp)
                (λ t. ground (arith, count_page-insert t e' ix.entries c.table.ascending))
                c.counts);
      }

  idx_set-IsCounted_full :
      (idx_set ix key loc version flags).0 ≡ false → lookup key ix.entries ≡ none → IsCounted ix'
  idx_set-IsCounted_full no_room p =
      let q : ix'.entries ≡ ix.entries =
        ground (arith, idx_set-entries ix key loc version flags c.table) in
      let r : ix'.refs ≡ ix.refs =
        ground (arith, refs-idx_set ix key loc version flags c.table.ascending) in
      record {
        table = idx_set-IsTable ix key loc version flags c.table;
        size = rw r c.size;
        pages = rw q c.pages;
        counts = rw (q, r) c.counts;
      }

  idx_set-IsCounted_old : (o : Entry) → lookup key ix.entries ≡ some o → IsCounted ix'
  idx_set-IsCounted_old o p =
      let q : ix'.entries ≡ insert e' ix.entries =
        ground (arith, idx_set-entries ix key loc version flags c.table) in
      let r : ix'.refs ≡ ref_inc (ref_dec ix.refs (page_of o.loc)) (page_of loc) =
        ground (arith, refs-idx_set ix key loc version flags c.table.ascending) in
      let size : length (ref_dec ix.refs (page_of o.loc)) ≡ sector_count =
        length-ref_dec ix.refs (page_of o.loc) ∙ c.size in
      let fewer : Counts (ref_dec ix.refs (page_of o.loc))
          (λ t. count_page t ix.entries - on_page t o) =
        Counts-ref_dec ix.refs o _ _ (rw c.size (c.pages key o p))
          (λ t. ground (arith, found_on-le-count_page t key ix.entries)) c.counts in
      record {
        table = idx_set-IsTable ix key loc version flags c.table;
        size = rw r (length-ref_inc (ref_dec ix.refs (page_of o.loc)) (page_of loc) ∙ size);
        pages = pages-insert q;
        counts =
            rw (q, r)
              (Counts-ref_inc (ref_dec ix.refs (page_of o.loc)) e' _ _ (rw size hp)
                (λ t. ground (
                  arith,
                  count_page-insert t e' ix.entries c.table.ascending,
                  found_on-le-count_page t key ix.entries,
                ))
                fewer);
      }

  pub idx_set-IsCounted : IsCounted ix'
  idx_set-IsCounted = elim (Option-cases (lookup key ix.entries)) [
    | inr (o, p) ↦ idx_set-IsCounted_old o p
    | inl p ↦ elim (Bool-cases (idx_set ix key loc version flags).0) [
      | inl ok ↦ idx_set-IsCounted_new p ok
      | inr full ↦ idx_set-IsCounted_full full p
    ]
  ]

abbrev pub empty_index : Index
empty_index = record { entries = []; refs = replicate sector_count 0 }

-- The indexes that the store can build: from the empty one, by entries whose page is a page of the
-- region, and by removals.
pub data Reach : Index → Type 0 where
  start : Reach empty_index
  store :
      {ix : Index} (key loc version flags : ℕ)
      → page_of loc < sector_count
      → Reach ix
      → Reach (idx_set ix key loc version flags).1
  drop_key : {ix : Index} (key : ℕ) → Reach ix → Reach (idx_remove ix key)

IsCounted-empty : IsCounted empty_index
unfolding lookup count_page
IsCounted-empty = record {
  table = record { ascending = tt; fits = omega arith };
  size = length-replicate {A = ℕ} sector_count 0;
  pages = λ k e h. cc;
  counts = λ p h. inl (get_or-replicate sector_count p 0, omega arith);
}

pub Reach-IsCounted : {ix : Index} → Reach ix → IsCounted ix
Reach-IsCounted start = IsCounted-empty
Reach-IsCounted (store {ix = ix} key loc version flags h r) =
    idx_set-IsCounted ix key loc version flags h (Reach-IsCounted r)
Reach-IsCounted (drop_key {ix = ix} key r) = idx_remove-IsCounted ix key (Reach-IsCounted r)

pub no_entry_of_idle :
    (ix : Index) (k p : ℕ) (e : Entry)
    → IsCounted ix
    → p < sector_count
    → page_has_live_refs ix p ≡ false
    → idx_get ix k ≡ some e
    → page_of e.loc ≢ p
unfolding page_has_live_refs on_page
no_entry_of_idle ix k p e c hp idle h q = ground (
  arith,
  c.counts p hp,
  found_on-le-count_page p k ix.entries,
  idx_get-eq-lookup ix k c.table.ascending,
)

-- In every index that the store can build, a page that `page_has_live_refs` calls idle holds the
-- record of no key: it can be erased.
pub idle_page_is_free :
    {ix : Index} (k p : ℕ) (e : Entry)
    → Reach ix
    → p < sector_count
    → page_has_live_refs ix p ≡ false
    → idx_get ix k ≡ some e
    → page_of e.loc ≢ p
idle_page_is_free {ix} k p e r = no_entry_of_idle ix k p e (Reach-IsCounted r)
