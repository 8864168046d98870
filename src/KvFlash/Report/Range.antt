-- ===== src/KvFlash/Report/Range.antt =====
-- The reports against independent descriptions.
use picowal.Prelude.{
  ℕ, ◌/◌, ◌%◌, ◌^◌, zero, suc, ◌+◌, ◌≡◌, refl, ap, List, [], ◌∷◌, take, if◌then◌else◌, Bool-cases,
  inl, inr, ◌==◌,
}
use picowal.KvFlash.Index.{Entry, page_of}
use picowal.KvFlash.State.{Kv}
use picowal.KvFlash.Report.{in_range, range_loop, kv_range}

-- Every entry in the range.
pub matches : List Entry → ℕ → ℕ → List (ℕ × ℕ)
matches [] key_prefix prefix_mask = []
matches (e ∷ es) key_prefix prefix_mask =
    if in_range key_prefix prefix_mask e
    then (e.key, page_of e.loc) ∷ matches es key_prefix prefix_mask
    else matches es key_prefix prefix_mask

range_loop-take :
    (es : List Entry) (key_prefix prefix_mask budget : ℕ)
    → range_loop es key_prefix prefix_mask budget ≡ take budget (matches es key_prefix prefix_mask)
unfolding range_loop matches
range_loop-take [] key_prefix prefix_mask zero = refl
range_loop-take [] key_prefix prefix_mask (suc budget) = refl
range_loop-take (e ∷ es) key_prefix prefix_mask zero = refl
range_loop-take (e ∷ es) key_prefix prefix_mask (suc budget) =
    elim (Bool-cases (in_range key_prefix prefix_mask e)) [
      | inl q ↦
          rw (q, range_loop, matches)
            (ap (λ rest. (e.key, page_of e.loc) ∷ rest)
              (range_loop-take es key_prefix prefix_mask budget))
      | inr q ↦ rw (q, range_loop, matches) (range_loop-take es key_prefix prefix_mask (suc budget))
    ]

-- `kv_range` gives the first `max_results` of the entries whose key agrees with the prefix on the
-- mask, in the order of the index.
pub kv_range-take :
    (s : Kv) (key_prefix prefix_mask max_results : ℕ)
    → kv_range s key_prefix prefix_mask max_results
      ≡ take max_results (matches s.index.entries key_prefix prefix_mask)
unfolding kv_range
kv_range-take s key_prefix prefix_mask max_results =
    range_loop-take s.index.entries key_prefix prefix_mask max_results

abbrev pub type_of : Entry → ℕ
type_of e = e.key / 2 ^ 22 % 2 ^ 16

-- The records that are counted for a type.
pub given : ℕ → List (ℕ × ℕ) → ℕ
given t [] = 0
given t ((u, n) ∷ counts) = (if u == t then n else 0) + given t counts

-- The entries of a type.
pub of_type : ℕ → List Entry → ℕ
of_type t [] = 0
of_type t (e ∷ es) = (if type_of e == t then 1 else 0) + of_type t es

-- The type counted last.
abbrev LastIs : List (ℕ × ℕ) → ℕ → Type 0
LastIs [] prev = Unit
LastIs ((u, n) ∷ counts) prev = u ≡ prev
