-- ===== src/KvFlash/Index/Sorted.antt =====
-- The sorted list of entries as a finite map: what insertion and removal at a position do to it.
use picowal.Prelude.{
  ℕ, zero, suc, ◌+◌, ◌<◌, ◌≤◌, ◌≡◌, refl, Option, none, some, List, [], ◌∷◌, arith, length, set,
  ltb, ◌==◌, if◌then◌else◌, if_intro,
}
use picowal.KvFlash.Index.{Entry, insert_at, remove_at}
use picowal.KvFlash.Index.Find.{key_at, IsSorted}

-- Every key of the list is above `k`.
abbrev pub Above : ℕ → List Entry → Type 0
Above k [] = Unit
Above k (e ∷ es) = (k < e.key) × Above k es

abbrev pub Ascending : List Entry → Type 0
Ascending [] = Unit
Ascending (e ∷ es) = Above e.key es × Ascending es

unfoldable pub lookup : ℕ → List Entry → Option Entry
lookup k [] = none
lookup k (e ∷ es) = if e.key == k then some e else lookup k es

unfoldable pub insert : Entry → List Entry → List Entry
insert e [] = e ∷ []
insert e (x ∷ es) =
    if ltb e.key x.key then e ∷ x ∷ es else if e.key == x.key then e ∷ es else x ∷ insert e es

unfoldable pub remove : ℕ → List Entry → List Entry
remove k [] = []
remove k (x ∷ es) = if x.key == k then es else x ∷ remove k es

lt-key_at_of_Above :
    (k : ℕ) (es : List Entry) → Above k es → (i : ℕ) → i < length es → k < key_at es i
lt-key_at_of_Above k [] a i h = absurd (omega arith)
lt-key_at_of_Above k (e ∷ es) a zero h = a.0
lt-key_at_of_Above k (e ∷ es) a (suc i) h = lt-key_at_of_Above k es a.1 i (omega arith)

pub IsSorted-Ascending : (es : List Entry) → Ascending es → IsSorted es
IsSorted-Ascending [] a i j p q = absurd (omega arith)
IsSorted-Ascending (e ∷ es) a zero zero p q = absurd (omega arith)
IsSorted-Ascending (e ∷ es) a zero (suc j) p q = lt-key_at_of_Above e.key es a.0 j (omega arith)
IsSorted-Ascending (e ∷ es) a (suc i) zero p q = absurd (omega arith)
IsSorted-Ascending (e ∷ es) a (suc i) (suc j) p q =
    IsSorted-Ascending es a.1 i j (omega arith) (omega arith)

module _ (e : Entry) where
  pub insert_at-eq-insert :
      (p : ℕ) (es : List Entry)
      → ((i : ℕ) → i < p → key_at es i < e.key)
      → ((i : ℕ) → p ≤ i → i < length es → e.key < key_at es i)
      → p ≤ length es
      → insert_at p e es ≡ insert e es
  unfolding insert_at insert
  insert_at-eq-insert zero [] below above h = refl
  insert_at-eq-insert zero (x ∷ es) below above h =
      ground (arith, above 0 (omega arith) (omega arith))
  insert_at-eq-insert (suc p) [] below above h = absurd (omega arith)
  insert_at-eq-insert (suc p) (x ∷ es) below above h = ground (
    arith,
    below 0 (omega arith),
    insert_at-eq-insert p es (λ i q. below (suc i) (omega arith))
        (λ i q r. above (suc i) (omega arith) (omega arith)) (omega arith),
  )

  pub set-eq-insert :
      (i : ℕ) (es : List Entry)
      → ((j : ℕ) → j < i → key_at es j < e.key)
      → i < length es
      → key_at es i ≡ e.key
      → set es i e ≡ insert e es
  unfolding insert
  set-eq-insert i [] below h k = absurd (omega arith)
  set-eq-insert zero (x ∷ es) below h k = ground arith
  set-eq-insert (suc i) (x ∷ es) below h k = ground (
    arith,
    below 0 (omega arith),
    set-eq-insert i es (λ j q. below (suc j) (omega arith)) (omega arith) k,
  )

pub remove_at-eq-remove :
    (k i : ℕ) (es : List Entry)
    → ((j : ℕ) → j < i → key_at es j < k)
    → i < length es
    → key_at es i ≡ k
    → remove_at i es ≡ remove k es
unfolding remove_at remove
remove_at-eq-remove k i [] below h e = refl
remove_at-eq-remove k zero (x ∷ es) below h e = ground arith
remove_at-eq-remove k (suc i) (x ∷ es) below h e = ground (
  arith,
  below 0 (omega arith),
  remove_at-eq-remove k i es (λ j q. below (suc j) (omega arith)) (omega arith) e,
)

pub lookup-insert :
    (e : Entry) (es : List Entry) (j : ℕ)
    → lookup j (insert e es) ≡ (if e.key == j then some e else lookup j es)
unfolding lookup insert
lookup-insert e [] j = refl
lookup-insert e (x ∷ es) j = ground (arith, lookup-insert e es j)

pub lookup_of_Above : (k j : ℕ) (es : List Entry) → Above k es → j ≤ k → lookup j es ≡ none
unfolding lookup
lookup_of_Above k j [] a h = refl
lookup_of_Above k j (x ∷ es) a h = ground (arith, lookup_of_Above k j es a.1 h)

pub lookup-remove :
    (k : ℕ) (es : List Entry) (j : ℕ)
    → Ascending es
    → lookup j (remove k es) ≡ (if k == j then none else lookup j es)
unfolding lookup remove
lookup-remove k [] j a = ground arith
lookup-remove k (x ∷ es) j a =
    ground (arith, lookup-remove k es j a.1, lookup_of_Above x.key j es a.0)

Above-trans : (b c : ℕ) (es : List Entry) → b < c → Above c es → Above b es
Above-trans b c [] h a = tt
Above-trans b c (x ∷ es) h a = (omega arith, Above-trans b c es h a.1)

Above-insert :
    (b : ℕ) (e : Entry) (es : List Entry) → b < e.key → Above b es → Above b (insert e es)
unfolding insert
Above-insert b e [] h a = (h, tt)
Above-insert b e (x ∷ es) h a =
    if_intro (Above b) (ltb e.key x.key) (λ _. (h, a))
      λ _. if_intro (Above b) (e.key == x.key) (λ _. (h, a.1)) λ _. (a.0, Above-insert b e es h a.1)

pub Ascending-insert : (e : Entry) (es : List Entry) → Ascending es → Ascending (insert e es)
unfolding insert
Ascending-insert e [] a = (tt, tt)
Ascending-insert e (x ∷ es) a =
    if_intro Ascending (ltb e.key x.key)
      (λ less. ((ground arith, Above-trans e.key x.key es (ground arith) a.0), a))
      λ more.
        if_intro Ascending (e.key == x.key)
          (λ same. (let p : e.key ≡ x.key = ground arith in rw p a.0, a.1))
          λ other. (Above-insert x.key e es (ground arith) a.0, Ascending-insert e es a.1)

Above-remove : (b k : ℕ) (es : List Entry) → Above b es → Above b (remove k es)
unfolding remove
Above-remove b k [] a = tt
Above-remove b k (x ∷ es) a =
    if_intro (Above b) (x.key == k) (λ _. a.1) λ _. (a.0, Above-remove b k es a.1)

pub Ascending-remove : (k : ℕ) (es : List Entry) → Ascending es → Ascending (remove k es)
unfolding remove
Ascending-remove k [] a = tt
Ascending-remove k (x ∷ es) a =
    if_intro Ascending (x.key == k) (λ _. a.1)
      λ _. (Above-remove x.key k es a.0, Ascending-remove k es a.1)

pub length-insert :
    (e : Entry) (es : List Entry)
    → Ascending es
    → length (insert e es) ≡ (elim (lookup e.key es) [ none ↦ length es + 1 | some _ ↦ length es ])
unfolding insert lookup
length-insert e [] a = omega arith
length-insert e (x ∷ es) a =
    ground (arith, lookup_of_Above x.key e.key es a.0, length-insert e es a.1)

pub length-remove : (k : ℕ) (es : List Entry) → length (remove k es) ≤ length es
unfolding remove
length-remove k [] = omega arith
length-remove k (x ∷ es) = ground (arith, length-remove k es)
