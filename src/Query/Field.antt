-- ===== src/Query/Field.antt =====
-- The values of fields in cards, as src/query.c extracts them. A byte behind the end of the card reads
-- as 0. `snprintf` of a number and `strtol` are the C library's.
use picowal.Prelude.{
  ℕ, zero, suc, ◌+◌, ◌-◌, ◌*◌, ◌%◌, ◌^◌, Bool, true, false, ◌&&◌, ◌||◌, Option, none, some, List,
  [], ◌∷◌, ◌++◌, length, take, drop, get_or, ltb, leb, ◌==◌, if◌then◌else◌, codes,
}
use mathlib.Core.Bool.{not}

-- Integers: `negsuc n` is -(n + 1).
pub data ℤ : Type 0 where
  pos : ℕ → ℤ
  negsuc : ℕ → ℤ

-- The decimal text of a number, and the number that a text starts with, as a `long` of 32 bits.
pub record Decimal : Type 0 where
  pub print : ℤ → List ℕ
  pub strtol : List ℕ → ℤ

-- A word of `w` bits read with its sign.
unfoldable pub signed : ℕ → ℕ → ℤ
signed w v = if ltb v (2 ^ (w - 1)) then pos v else negsuc (2 ^ w - 1 - v)

abbrev pub byte_of : List ℕ → ℕ → ℕ
byte_of bytes i = get_or bytes i 0 % 256

-- The numbers of one, two and four bytes, 0 if the field is shorter.
unfoldable pub value8 : ℕ → List ℕ → ℕ
value8 flen bytes = if leb 1 flen then byte_of bytes 0 else 0

unfoldable pub value16 : ℕ → List ℕ → ℕ
value16 flen bytes = if leb 2 flen then byte_of bytes 0 + 256 * byte_of bytes 1 else 0

unfoldable pub value32 : ℕ → List ℕ → ℕ
value32 flen bytes =
    if leb 4 flen
    then byte_of bytes 0
      + 256 * byte_of bytes 1
      + 65536 * byte_of bytes 2
      + 16777216 * byte_of bytes 3
    else 0

-- The loop over the fields: the length of the first field of the ordinal, and the bytes from its data
-- on. A round takes at least two bytes.
unfoldable pub find_ord : ℕ → ℕ → List ℕ → Option (ℕ × List ℕ)
find_ord zero target rest = none
find_ord (suc fuel) target [] = none
find_ord (suc fuel) target (o ∷ []) = none
find_ord (suc fuel) target (o ∷ flen ∷ rest) =
    let later = find_ord fuel target (drop flen rest) in
    if ltb (length rest) flen then none else if o % 32 == target then some (flen, rest) else later

unfoldable pub card_field : List ℕ → ℕ → Option (ℕ × List ℕ)
card_field [] target = none
card_field (m ∷ []) target = none
card_field (m ∷ m' ∷ []) target = none
card_field (m ∷ m' ∷ v ∷ []) target = none
card_field (m ∷ m' ∷ v ∷ v' ∷ rest) target =
    let found = find_ord (length rest) target rest in
    if (m == 0x7D) && (m' == 0xCA) then found else none

-- A C string ends at its first 0.
unfoldable pub until_zero : List ℕ → List ℕ
until_zero [] = []
until_zero (c ∷ cs) = let rest = until_zero cs in if c == 0 then [] else c ∷ rest

-- The words of an array from byte `i` on, while two of its `bc` bytes are left.
unfoldable pub array_values : ℕ → List ℕ → List ℕ
array_values zero bytes = []
array_values (suc zero) bytes = []
array_values (suc (suc bc)) bytes =
    (byte_of bytes 0 + 256 * byte_of bytes 1) ∷ array_values bc (drop 2 bytes)

module _ (lib : Decimal) where
  -- The loop over the words, with commas, while six bytes are left.
  unfoldable pub array_text : ℕ → List ℕ → List ℕ → List ℕ
  array_text out_max out [] = out
  array_text out_max out (v ∷ vs) =
      let out' = (if ltb 0 (length out) then out ++ (b',' ∷ []) else out) ++ lib.print (pos v) in
      let rest = array_text out_max out' vs in if ltb (length out) (out_max - 6) then rest else out

  -- `snprintf` into `out_max` bytes.
  unfoldable pub print_in : ℕ → ℤ → List ℕ
  print_in out_max z = take (out_max - 1) (lib.print z)

  -- The switch on the type of a field of `flen` bytes.
  unfoldable pub field_text : ℕ → ℕ → ℕ → List ℕ → List ℕ
  field_text out_max type flen bytes =
      let slen = byte_of bytes 0 in
      let n = if ltb (flen - 1) slen then flen - 1 else slen in
      if type == 0x07
      then take (out_max - 1)
          (if leb 1 flen && not (byte_of bytes 0 == 0) then codes "true" else codes "false")
      else if type == 0x01
      then print_in out_max (pos (value8 flen bytes))
      else if type == 0x02
      then print_in out_max (pos (value16 flen bytes))
      else if type == 0x03
      then print_in out_max (pos (value32 flen bytes))
      else if type == 0x04
      then print_in out_max (signed 8 (value8 flen bytes))
      else if type == 0x05
      then print_in out_max (signed 16 (value16 flen bytes))
      else if type == 0x06
      then print_in out_max (signed 32 (value32 flen bytes))
      else if (type == 0x08) || (type == 0x09)
      then (if leb 1 flen
          then until_zero (take (if leb (out_max % 256) n then out_max - 1 else n) (drop 1 bytes))
          else [])
      else if type == 0x10
      then (if leb 1 flen then array_text out_max [] (array_values slen (drop 1 bytes)) else [])
      else if type == 0x12
      then print_in out_max (pos (value32 flen bytes))
      else []

  -- The text of the field; without the field the result is false and the text is empty.
  unfoldable pub extract_field_str : List ℕ → ℕ → ℕ → ℕ → Bool × List ℕ
  extract_field_str card target type out_max = elim (card_field card target) [
    | none ↦ (false, [])
    | some (flen, bytes) ↦ (true, field_text out_max type flen bytes)
  ]

-- The switch of the numeric types.
unfoldable pub field_int32 : ℕ → ℕ → List ℕ → Option ℤ
field_int32 type flen bytes =
    if type == 0x01
    then some (pos (value8 flen bytes))
    else if type == 0x02
    then some (pos (value16 flen bytes))
    else if (type == 0x03) || (type == 0x12)
    then some (signed 32 (value32 flen bytes))
    else if type == 0x04
    then some (signed 8 (value8 flen bytes))
    else if type == 0x05
    then some (signed 16 (value16 flen bytes))
    else if type == 0x06
    then some (signed 32 (value32 flen bytes))
    else none

unfoldable pub extract_field_int32 : List ℕ → ℕ → ℕ → Option ℤ
extract_field_int32 card target type = elim (card_field card target) [
  | none ↦ none
  | some (flen, bytes) ↦ field_int32 type flen bytes
]

unfoldable pub is_numeric_type : ℕ → Bool
is_numeric_type tc =
    (tc == 0x01)
    || (tc == 0x02)
    || (tc == 0x03)
    || (tc == 0x04)
    || (tc == 0x05)
    || (tc == 0x06)
    || (tc == 0x12)
