-- ===== src/KvFlash/Index/Find.antt =====
-- The binary search of the index in src/kv_flash.c.
use native.Mathlib.Decide.{dec_lt}
use picowal.Prelude.{
  ℕ, zero, suc, ◌+◌, ◌-◌, ◌/◌, ◌<◌, ◌≤◌, ◌≡◌, List, arith, length, inl, inr, ltb, ◌==◌, ==_iff,
  Bool-cases,
}
use picowal.KvFlash.Index.{Entry, Found, found, absent, entry_at, find_loop, idx_find_linear}

abbrev pub key_at : List Entry → ℕ → ℕ
key_at es i = (entry_at es i).key

-- The keys of the entries ascend strictly.
abbrev pub IsSorted : List Entry → Type 0
IsSorted es = (i j : ℕ) → i < j → j < length es → key_at es i < key_at es j

-- What a search result says of the entries.
abbrev pub Locates : List Entry → ℕ → Found → Type 0
Locates es key (found i) = (i < length es) × (key_at es i ≡ key)
Locates es key (absent p) =
    (p ≤ length es)
    × ((i : ℕ) → i < p → key_at es i < key)
    × ((i : ℕ) → p ≤ i → i < length es → key < key_at es i)

module _ (es : List Entry) (key : ℕ) (sorted : IsSorted es) where
  key_at-lt_up_to : (m i : ℕ) → m < length es → key_at es m < key → i < m + 1 → key_at es i < key
  key_at-lt_up_to m i hm hk hi = elim (dec_lt i m) [
    | yes p ↦ omega (arith, sorted i m p hm)
    | no q ↦ let e : i ≡ m = omega arith in rw e hk
  ]

  lt-key_at_from : (m i : ℕ) → i < length es → key < key_at es m → m ≤ i → key < key_at es i
  lt-key_at_from m i hl hk hi = elim (dec_lt m i) [
    | yes p ↦ omega (arith, sorted m i p hl)
    | no q ↦ let e : i ≡ m = omega arith in rw e hk
  ]

  -- With fuel for the interval, the loop locates the key that can only stand between its ends.
  find_loop-Locates :
      (fuel lo top : ℕ)
      → top ≤ lo + fuel
      → lo ≤ top
      → top ≤ length es
      → ((i : ℕ) → i < lo → key_at es i < key)
      → ((i : ℕ) → top ≤ i → i < length es → key < key_at es i)
      → Locates es key (find_loop fuel es key lo top)
  unfolding find_loop
  find_loop-Locates zero lo top hf hlt ht below above =
      (omega arith, below, λ i p q. above i (omega arith) q)
  find_loop-Locates (suc fuel) lo top hf hlt ht below above = elim (Bool-cases (ltb lo top)) [
    | inr out ↦ rw (out, find_loop) (omega arith, below, λ i p q. above i (ground arith) q)
    | inl more ↦
        rw (more, find_loop)
          (elim (Bool-cases (key_at es mid == key)) [
            | inl hit ↦ rw hit (ground arith, (==_iff _ key).0 hit)
            | inr miss ↦ rw miss (elim (Bool-cases (ltb (key_at es mid) key)) [
              | inl less ↦ rw less (
                  find_loop-Locates fuel (mid + 1) top (ground arith) (ground arith) ht
                    (λ i p. key_at-lt_up_to mid i (ground arith) (ground arith) p) above)
              | inr more' ↦ rw more' (
                  find_loop-Locates fuel lo mid (ground arith) (ground arith) (ground arith) below
                    (λ i p q. lt-key_at_from mid i q (ground arith) p))
            ])
          ])
  ]
    where
      mid : ℕ
      mid = lo + (top - 1 - lo) / 2

  -- The search of a sorted index finds an entry of the key, or the position that parts the smaller
  -- keys from the larger ones.
  pub idx_find_linear-Locates : Locates es key (idx_find_linear es key)
  unfolding idx_find_linear
  idx_find_linear-Locates =
      find_loop-Locates (length es) 0 (length es) (omega arith) (omega arith) (omega arith)
        (λ i p. absurd (omega arith)) (λ i p q. absurd (omega arith))
