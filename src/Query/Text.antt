-- ===== src/Query/Text.antt =====
-- Texts in src/query.c: a C string is the list of its characters without the 0.
use picowal.Prelude.{
  ℕ, ◌+◌, Bool, true, false, ◌&&◌, ◌||◌, Option, none, some, List, [], ◌∷◌, take, ltb, leb, ◌==◌,
  if◌then◌else◌, codes,
}

-- query_op_t
pub data QueryOp : Type 0 where
  eq : QueryOp
  ne : QueryOp
  gt : QueryOp
  lt : QueryOp
  ge : QueryOp
  le : QueryOp
  is_in : QueryOp
  not_in : QueryOp

-- `strcmp(a, b) == 0`
unfoldable pub same_text : List ℕ → List ℕ → Bool
same_text [] [] = true
same_text [] (d ∷ ds) = false
same_text (c ∷ cs) [] = false
same_text (c ∷ cs) (d ∷ ds) = (c == d) && same_text cs ds

-- `strcmp(a, b) < 0`
unfoldable pub less_text : List ℕ → List ℕ → Bool
less_text [] [] = false
less_text [] (d ∷ ds) = true
less_text (c ∷ cs) [] = false
less_text (c ∷ cs) (d ∷ ds) = ltb c d || ((c == d) && less_text cs ds)

unfoldable pub parse_op : List ℕ → QueryOp
parse_op s =
    if same_text s (codes "==")
    then eq
    else if same_text s (codes "!=")
    then ne
    else if same_text s (codes ">")
    then gt
    else if same_text s (codes "<")
    then lt
    else if same_text s (codes ">=")
    then ge
    else if same_text s (codes "<=")
    then le
    else if same_text s (codes "IN") || same_text s (codes "in")
    then is_in
    else if same_text s (codes "NI") || same_text s (codes "ni")
    then not_in
    else eq

unfoldable pub small_letter : ℕ → ℕ
small_letter c = if leb b'A' c && leb c b'Z' then c + 32 else c

-- Whether `strcasecmp_local` gives 0, which is all that its callers ask for.
unfoldable pub strcasecmp_local : List ℕ → List ℕ → Bool
strcasecmp_local [] [] = true
strcasecmp_local [] (d ∷ ds) = false
strcasecmp_local (c ∷ cs) [] = false
strcasecmp_local (c ∷ cs) (d ∷ ds) = (small_letter c == small_letter d) && strcasecmp_local cs ds

-- `strchr`: what stands before the first `c`, and behind it if there is one.
unfoldable pub cut_at : ℕ → List ℕ → List ℕ × Option (List ℕ)
cut_at c [] = ([], none)
cut_at c (x ∷ xs) =
    let (before, behind) = cut_at c xs in if x == c then ([], some xs) else (x ∷ before, behind)

-- The pack, empty without a dot, and the field; each buffer holds 31 characters.
unfoldable pub split_dotted : List ℕ → List ℕ × List ℕ
split_dotted s = elim (cut_at b'.' s).1 [
  | none ↦ ([], take 31 s)
  | some field ↦ (take 31 (cut_at b'.' s).0, take 31 field)
]

unfoldable pub skip_spaces : List ℕ → List ℕ
skip_spaces [] = []
skip_spaces (c ∷ cs) = let rest = skip_spaces cs in if c == b' ' then rest else c ∷ cs

-- Without the spaces at the end.
unfoldable pub trim_end : List ℕ → List ℕ
trim_end [] = []
trim_end (c ∷ cs) = elim (trim_end cs) [
  | [] ↦ if c == b' ' then [] else c ∷ []
  | d ∷ ds ↦ c ∷ d ∷ ds
]

-- The stretches between the characters `c`.
unfoldable pub stretches : ℕ → List ℕ → List (List ℕ)
stretches c [] = [] ∷ []
stretches c (x ∷ xs) =
    let rest = stretches c xs in
    if x == c then [] ∷ rest else (elim rest [ [] ↦ (x ∷ []) ∷ [] | s ∷ ss ↦ (x ∷ s) ∷ ss ])

unfoldable pub filled : List (List ℕ) → List (List ℕ)
filled [] = []
filled ([] ∷ ss) = filled ss
filled ((c ∷ cs) ∷ ss) = (c ∷ cs) ∷ filled ss

unfoldable pub skip_each : List (List ℕ) → List (List ℕ)
skip_each [] = []
skip_each (s ∷ ss) = skip_spaces s ∷ skip_each ss
