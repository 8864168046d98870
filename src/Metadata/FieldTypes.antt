-- ===== src/Metadata/FieldTypes.antt =====
-- The names of the field types, in their ASCII codes.
use picowal.Prelude.{
  ℕ, ◌+◌, ◌<◌, ◌≡◌, refl, Bool, true, false, Option, none, some, List, [], ◌∷◌, arith, length,
  get_or, leb, ◌==◌, if◌then◌else◌,
}
use picowal.Prelude.Bits.{all_below, all_below_sound}
use picowal.Metadata.Names.{lower, ascii_ieq}

-- g_field_type_names
unfoldable pub field_type_names : List (List ℕ)
field_type_names =
    (98 ∷ 111 ∷ 111 ∷ 108 ∷ [])
    ∷ (99 ∷ 104 ∷ 97 ∷ 114 ∷ [])
    ∷ (99 ∷ 104 ∷ 97 ∷ 114 ∷ 91 ∷ 93 ∷ [])
    ∷ (98 ∷ 121 ∷ 116 ∷ 101 ∷ [])
    ∷ (98 ∷ 121 ∷ 116 ∷ 101 ∷ 91 ∷ 93 ∷ [])
    ∷ (117 ∷ 105 ∷ 110 ∷ 116 ∷ 56 ∷ [])
    ∷ (105 ∷ 110 ∷ 116 ∷ 56 ∷ [])
    ∷ (105 ∷ 110 ∷ 116 ∷ 49 ∷ 54 ∷ [])
    ∷ (105 ∷ 110 ∷ 116 ∷ 51 ∷ 50 ∷ [])
    ∷ (117 ∷ 105 ∷ 110 ∷ 116 ∷ 49 ∷ 54 ∷ [])
    ∷ (117 ∷ 105 ∷ 110 ∷ 116 ∷ 51 ∷ 50 ∷ [])
    ∷ (105 ∷ 115 ∷ 111 ∷ 100 ∷ 97 ∷ 116 ∷ 101 ∷ [])
    ∷ (105 ∷ 115 ∷ 111 ∷ 116 ∷ 105 ∷ 109 ∷ 101 ∷ [])
    ∷ (105 ∷ 115 ∷ 111 ∷ 100 ∷ 97 ∷ 116 ∷ 101 ∷ 116 ∷ 105 ∷ 109 ∷ 101 ∷ [])
    ∷ (117 ∷ 116 ∷ 102 ∷ 56 ∷ [])
    ∷ (108 ∷ 97 ∷ 116 ∷ 105 ∷ 110 ∷ 49 ∷ [])
    ∷ (97 ∷ 114 ∷ 114 ∷ 97 ∷ 121 ∷ 95 ∷ 117 ∷ 49 ∷ 54 ∷ [])
    ∷ (98 ∷ 108 ∷ 111 ∷ 98 ∷ [])
    ∷ (108 ∷ 111 ∷ 111 ∷ 107 ∷ 117 ∷ 112 ∷ [])
    ∷ []

-- "unknown"
abbrev unknown : List ℕ
unknown = 117 ∷ 110 ∷ 107 ∷ 110 ∷ 111 ∷ 119 ∷ 110 ∷ []

unfoldable pub metadata_field_type_name : ℕ → List ℕ
metadata_field_type_name field_type =
    if leb (length field_type_names) field_type
    then unknown
    else get_or field_type_names field_type unknown

-- The loop over the table, from index `i` on.
unfoldable pub type_index : List ℕ → List (List ℕ) → ℕ → Option ℕ
type_index name [] i = none
type_index name (n ∷ ns) i =
    let rest = type_index name ns (i + 1) in if ascii_ieq name n then some i else rest

-- The table, then "utf-8" and "latin-1".
unfoldable pub metadata_field_type_parse : List ℕ → Option ℕ
metadata_field_type_parse name = elim (type_index name field_type_names 0) [
  | some i ↦ some i
  | none ↦
      if ascii_ieq name (117 ∷ 116 ∷ 102 ∷ 45 ∷ 56 ∷ [])
      then some 14
      else if ascii_ieq name (108 ∷ 97 ∷ 116 ∷ 105 ∷ 110 ∷ 45 ∷ 49 ∷ [])
      then some 15
      else none
]

is_type : Option ℕ → ℕ → Bool
is_type none t = false
is_type (some u) t = u == t

is_type-eq : (o : Option ℕ) (t : ℕ) → is_type o t ≡ true → o ≡ some t
unfolding is_type
is_type-eq none t h = cc h
is_type-eq (some u) t h = ground arith

all_types :
    all_below 19 (λ t. is_type (metadata_field_type_parse (metadata_field_type_name t)) t) ≡ true
unfolding all_below metadata_field_type_parse metadata_field_type_name field_type_names type_index
    ascii_ieq lower is_type
all_types = refl

-- The name of each of the 19 field types is parsed as that type.
pub field_type_parse-name :
    (t : ℕ) → t < 19 → metadata_field_type_parse (metadata_field_type_name t) ≡ some t
field_type_parse-name t h =
    is_type-eq (metadata_field_type_parse (metadata_field_type_name t)) t
      (all_below_sound 19 _ all_types t h)
