-- ===== src/KvFlash/Index/Table.antt =====
-- The index as a finite map: `idx_get`, `idx_set` and `idx_remove` against a look-up by key.
use native.Mathlib.Decide.{dec_lt}
use picowal.Prelude.{
  ℕ, zero, suc, ◌<◌, ◌≤◌, ◌≡◌, ◌≢◌, refl, ap, true, ◌&&◌, none, some, List, [], ◌∷◌, arith, length,
  ltb, ◌==◌, if◌then◌else◌, if_intro, Option-cases, inl, inr,
}
use picowal.KvFlash.Index.{
  Entry, entry, Index, Found, found, absent, entry_at, index_capacity, idx_find_linear, idx_set_at,
  idx_set, idx_remove_at, idx_remove, idx_get,
}
use picowal.KvFlash.Index.Find.{key_at, IsSorted, Locates, idx_find_linear-Locates}
use picowal.KvFlash.Index.Sorted.{
  Ascending, lookup, insert, remove, IsSorted-Ascending, insert_at-eq-insert, set-eq-insert,
  remove_at-eq-remove, lookup-insert, lookup-remove, Ascending-insert, Ascending-remove,
  length-insert, length-remove,
}

-- The keys ascend strictly, and the arrays are large enough.
pub record IsTable (ix : Index) : Type 0 where
  pub ascending : Ascending ix.entries
  pub fits : length ix.entries ≤ index_capacity

lookup_of_absent :
    (es : List Entry) (key : ℕ)
    → ((i : ℕ) → i < length es → key_at es i ≢ key)
    → none ≡ lookup key es
unfolding lookup
lookup_of_absent [] key h = refl
lookup_of_absent (e ∷ es) key h =
    ground (arith, h 0 (omega arith), lookup_of_absent es key (λ i q. h (suc i) (omega arith)))

pub lookup_of_Locates :
    (es : List Entry) (key : ℕ) (r : Found)
    → IsSorted es
    → Locates es key r
    → (elim r [ found i ↦ some (entry_at es i) | absent _ ↦ none ]) ≡ lookup key es
unfolding lookup
lookup_of_Locates [] key (found i) s l = absurd (omega arith)
lookup_of_Locates (e ∷ es) key (found zero) s l = ground arith
lookup_of_Locates (e ∷ es) key (found (suc i)) s l = ground (
  arith,
  s 0 (suc i) (omega arith) l.0,
  lookup_of_Locates es key (found i) (λ a b p q. s (suc a) (suc b) (omega arith) (omega arith))
      (omega arith, l.1),
)
lookup_of_Locates es key (absent p) s l = lookup_of_absent es key (λ i h. elim (dec_lt i p) [
  | yes q ↦ omega (arith, l.1 i q)
  | no q ↦ omega (arith, l.2 i (omega arith) h)
])

-- On a sorted index `idx_get` is the look-up by key.
pub idx_get-eq-lookup :
    (ix : Index) (key : ℕ) → Ascending ix.entries → idx_get ix key ≡ lookup key ix.entries
unfolding idx_get
idx_get-eq-lookup ix key a =
    lookup_of_Locates ix.entries key (idx_find_linear ix.entries key) sorted
      (idx_find_linear-Locates ix.entries key sorted)
  where
    sorted : IsSorted ix.entries
    sorted = IsSorted-Ascending ix.entries a

-- Storing at a located position is `insert`, refused only for a new key when the arrays are full.
idx_set_at-entries :
    (r : Found) (ix : Index) (e : Entry)
    → IsTable ix
    → Locates ix.entries e.key r
    → IsSorted ix.entries
    → ((idx_set_at r ix e).0 ≡ (elim (lookup e.key ix.entries) [
      | none ↦ ltb (length ix.entries) index_capacity
      | some _ ↦ true
    ]))
      × ((idx_set_at r ix e).1.entries
          ≡ (if (idx_set_at r ix e).0 then insert e ix.entries else ix.entries))
unfolding idx_set_at
idx_set_at-entries (found f) ix e t l s = ground (
  arith,
  lookup_of_Locates ix.entries e.key (found f) s l,
  set-eq-insert e f ix.entries (λ j q. omega (arith, s j f q l.0)) l.0 l.1,
)
idx_set_at-entries (absent p) ix e t l s = ground (
  arith,
  lookup_of_Locates ix.entries e.key (absent p) s l,
  insert_at-eq-insert e p ix.entries l.1 l.2 l.0,
)

pub idx_set-entries :
    (ix : Index) (key loc version flags : ℕ)
    → IsTable ix
    → let (ok, ix') = idx_set ix key loc version flags in
      (ok ≡ (elim (lookup key ix.entries) [
        | none ↦ ltb (length ix.entries) index_capacity
        | some _ ↦ true
      ]))
      × (ix'.entries ≡ (if ok then insert (entry key loc version flags) ix.entries else ix.entries))
unfolding idx_set
idx_set-entries ix key loc version flags t =
    idx_set_at-entries (idx_find_linear ix.entries key) ix (entry key loc version flags) t
      (idx_find_linear-Locates ix.entries key sorted) sorted
  where
    sorted : IsSorted ix.entries
    sorted = IsSorted-Ascending ix.entries t.ascending

pub idx_set-IsTable :
    (ix : Index) (key loc version flags : ℕ)
    → IsTable ix
    → IsTable (idx_set ix key loc version flags).1
idx_set-IsTable ix key loc version flags t = record {
  ascending = rw (idx_set-entries ix key loc version flags t).1 (
      if_intro Ascending (idx_set ix key loc version flags).0
        (λ _. Ascending-insert (entry key loc version flags) ix.entries t.ascending)
        (λ _. t.ascending));
  fits = ground (
    arith,
    idx_set-entries ix key loc version flags t,
    length-insert (entry key loc version flags) ix.entries t.ascending,
  );
}

-- What `idx_set` returns: it is refused only for a new key when the arrays are full. Otherwise
-- looking a key up afterwards gives the new entry for its own key and what it gave before for any
-- other; refused, it changes nothing. The index stays sorted and within its arrays.
pub idx_set_lem :
    (ix : Index) (key loc version flags : ℕ)
    → IsTable ix
    → let (ok, ix') = idx_set ix key loc version flags in
      (ok
        ≡ (elim (idx_get ix key) [ none ↦ ltb (length ix.entries) index_capacity | some _ ↦ true ]))
      × ((j : ℕ)
          → idx_get ix' j
            ≡ (if ok && key == j then some (entry key loc version flags) else idx_get ix j))
      × IsTable ix'
idx_set_lem ix key loc version flags t = (
  rw (idx_get-eq-lookup ix key t.ascending) (idx_set-entries ix key loc version flags t).0,
  λ j. ground (
    arith,
    idx_get-eq-lookup ix j t.ascending,
    idx_get-eq-lookup ix' j (idx_set-IsTable ix key loc version flags t).ascending,
    idx_set-entries ix key loc version flags t,
    lookup-insert (entry key loc version flags) ix.entries j,
  ),
  idx_set-IsTable ix key loc version flags t,
)
  where
    ix' : Index
    ix' = (idx_set ix key loc version flags).1

idx_remove_at-entries :
    (r : Found) (ix : Index) (key : ℕ)
    → Locates ix.entries key r
    → IsSorted ix.entries
    → (idx_remove_at r ix).entries
      ≡ (elim (lookup key ix.entries) [ none ↦ ix.entries | some _ ↦ remove key ix.entries ])
unfolding idx_remove_at
idx_remove_at-entries (found f) ix key l s = ground (
  arith,
  lookup_of_Locates ix.entries key (found f) s l,
  remove_at-eq-remove key f ix.entries (λ j q. omega (arith, s j f q l.0)) l.0 l.1,
)
idx_remove_at-entries (absent p) ix key l s =
    ground (arith, lookup_of_Locates ix.entries key (absent p) s l)

pub idx_remove-entries :
    (ix : Index) (key : ℕ)
    → Ascending ix.entries
    → (idx_remove ix key).entries
      ≡ (elim (lookup key ix.entries) [ none ↦ ix.entries | some _ ↦ remove key ix.entries ])
unfolding idx_remove
idx_remove-entries ix key a =
    idx_remove_at-entries (idx_find_linear ix.entries key) ix key
      (idx_find_linear-Locates ix.entries key sorted) sorted
  where
    sorted : IsSorted ix.entries
    sorted = IsSorted-Ascending ix.entries a

pub idx_remove-IsTable : (ix : Index) (key : ℕ) → IsTable ix → IsTable (idx_remove ix key)
idx_remove-IsTable ix key t = elim (Option-cases (lookup key ix.entries)) [
  | inl p ↦
      let q : (idx_remove ix key).entries ≡ ix.entries =
        ground (arith, idx_remove-entries ix key t.ascending) in
      record { ascending = rw q t.ascending; fits = rw q t.fits }
  | inr (e, p) ↦
      let q : (idx_remove ix key).entries ≡ remove key ix.entries =
        ground (arith, idx_remove-entries ix key t.ascending) in
      record {
        ascending = rw q (Ascending-remove key ix.entries t.ascending);
        fits = omega (arith, ap length q, length-remove key ix.entries);
      }
]

-- After `idx_remove` the key is gone and every other key has the entry it had; the index stays sorted
-- and within its arrays.
pub idx_remove_lem :
    (ix : Index) (key : ℕ)
    → IsTable ix
    → ((j : ℕ) → idx_get (idx_remove ix key) j ≡ (if key == j then none else idx_get ix j))
      × IsTable (idx_remove ix key)
idx_remove_lem ix key t = (
  λ j. ground (
    arith,
    idx_get-eq-lookup ix j t.ascending,
    idx_get-eq-lookup (idx_remove ix key) j (idx_remove-IsTable ix key t).ascending,
    idx_remove-entries ix key t.ascending,
    lookup-remove key ix.entries j t.ascending,
  ),
  idx_remove-IsTable ix key t,
)
