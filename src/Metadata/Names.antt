-- ===== src/Metadata/Names.antt =====
-- Keys, names and caches of src/metadata_dict.c.
use picowal.Prelude.{
  ℕ, zero, suc, ◌+◌, ◌*◌, ◌/◌, ◌%◌, ◌^◌, Bool, true, false, ◌&&◌, Option, none, some, List, [], ◌∷◌,
  ◌++◌, length, take, replicate, ltb, leb, ◌==◌, if◌then◌else◌,
}

abbrev pub name_max : ℕ
name_max = 31

abbrev pub max_items : ℕ
max_items = 64

-- `(record_type << 22) | ordinal` of an ordinal that is a uint16
unfoldable pub metadata_key : ℕ → ℕ → ℕ
metadata_key record_type ordinal = record_type * 2 ^ 22 % 2 ^ 32 + ordinal

-- A C string up to its end.
unfoldable pub text : List ℕ → List ℕ
text [] = []
text (c ∷ cs) = if c == 0 then [] else c ∷ text cs

-- `name_valid`, of a name without its end
unfoldable pub name_valid : List ℕ → Bool
name_valid name = ltb 0 (length name) && leb (length name) name_max

-- tolower of the C locale
unfoldable pub lower : ℕ → ℕ
lower c = if leb 65 c && leb c 90 then c + 32 else c

unfoldable pub ascii_ieq : List ℕ → List ℕ → Bool
ascii_ieq [] [] = true
ascii_ieq [] (d ∷ ds) = false
ascii_ieq (c ∷ cs) [] = false
ascii_ieq (c ∷ cs) (d ∷ ds) = (lower c == lower d) && ascii_ieq cs ds

-- The first `n` bytes, zeros where there are none.
unfoldable pub zero_filled : ℕ → List ℕ → List ℕ
zero_filled n bytes = take n (bytes ++ replicate n 0)

-- The uint16s of a record, `n` of them.
unfoldable pub ordinals_of : ℕ → List ℕ → List ℕ
ordinals_of zero bytes = []
ordinals_of (suc n) [] = 0 ∷ ordinals_of n []
ordinals_of (suc n) (lo ∷ []) = lo ∷ ordinals_of n []
ordinals_of (suc n) (lo ∷ hi ∷ bytes) = (lo + 256 * hi) ∷ ordinals_of n bytes

unfoldable pub ordinal_bytes : List ℕ → List ℕ
ordinal_bytes [] = []
ordinal_bytes (o ∷ os) = (o % 256) ∷ (o / 256 % 256) ∷ ordinal_bytes os

-- The cache entry of the ordinal replaced by what was loaded; without one, a new one at the end if
-- there is room.
module _ {A : Type 0} (ordinal_of : A → ℕ) where
  unfoldable pub cache_upsert : ℕ → List A → ℕ → Option A → List A
  cache_upsert n [] ordinal none = []
  cache_upsert n [] ordinal (some a) = if ltb n max_items then a ∷ [] else []
  cache_upsert n (x ∷ xs) ordinal none = x ∷ xs
  cache_upsert n (x ∷ xs) ordinal (some a) =
      if ordinal_of x == ordinal then a ∷ xs else x ∷ cache_upsert (n + 1) xs ordinal (some a)

  unfoldable pub cache_get : List A → ℕ → Option A
  cache_get [] ordinal = none
  cache_get (x ∷ xs) ordinal =
      let rest = cache_get xs ordinal in if ordinal_of x == ordinal then some x else rest

-- The first entry whose name agrees, but for the case of letters.
module _ {A : Type 0} (name_of : A → List ℕ) where
  unfoldable pub cache_find : List A → List ℕ → Option A
  cache_find [] name = none
  cache_find (x ∷ xs) name =
      let rest = cache_find xs name in if ascii_ieq name (text (name_of x)) then some x else rest
