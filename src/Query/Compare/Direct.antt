-- ===== src/Query/Compare/Direct.antt =====
-- The two comparisons of a numeric field in src/query.c: by its text, as the search of a joined pack
-- does it, and by its number, as the scan of the first pack does it.
use mathlib.Core.Bool.{not}
use picowal.Prelude.{
  ℕ, ◌-◌, ◌^◌, ◌<◌, ◌≤◌, ◌≡◌, sym, ap, ◌∙◌, true, false, ◌⊎◌, some, List, take, take_all, arith,
}
use picowal.Query.Text.{QueryOp, eq, ne, gt, lt, ge, le, is_in, not_in}
use picowal.Query.Field.{
  ℤ, pos, Decimal, value32, card_field, extract_field_str, extract_field_int32,
}
use picowal.Query.Compare.{compare_str, same_int, less_int, compare_int, compare_int_direct}
use picowal.Query.Numeric.{
  InInt32, DecimalLaws, NumericType, type_code, shown, taken, is_word, value32-lt,
  field_text-numeric, field_int32-numeric, taken-shown, taken-InInt32, word_values,
}

module _ {lib : Decimal} (laws : DecimalLaws lib) where
  compare_int-print :
      (z : ℤ) (op : QueryOp) (v : List ℕ)
      → InInt32 z
      → compare_int lib (lib.print z) op v ≡ compare_int_direct lib z op v
  unfolding compare_int compare_int_direct
  compare_int-print z eq v h = ap (λ x. same_int x (lib.strtol v)) (laws.strtol-print z h)
  compare_int-print z ne v h = ap (λ x. not (same_int x (lib.strtol v))) (laws.strtol-print z h)
  compare_int-print z gt v h = ap (λ x. less_int (lib.strtol v) x) (laws.strtol-print z h)
  compare_int-print z lt v h = ap (λ x. less_int x (lib.strtol v)) (laws.strtol-print z h)
  compare_int-print z ge v h = ap (λ x. not (less_int x (lib.strtol v))) (laws.strtol-print z h)
  compare_int-print z le v h = ap (λ x. not (less_int (lib.strtol v) x)) (laws.strtol-print z h)
  compare_int-print z is_in v h =
      let len = laws.length-print z h in
      ap (λ x. compare_str x is_in v) (sym (take_all 15 (lib.print z) (omega (arith, len))))
  compare_int-print z not_in v h =
      let len = laws.length-print z h in
      ap (λ x. compare_str x not_in v) (sym (take_all 15 (lib.print z) (omega (arith, len))))

  module _ (card : List ℕ) (target : ℕ) (t : NumericType) (flen : ℕ) (bytes : List ℕ)
      (found : card_field card target ≡ some (flen, bytes)) where
    number_eq : extract_field_int32 card target (type_code t) ≡ some (taken t flen bytes)
    unfolding extract_field_int32
    number_eq = rw (found, extract_field_int32) (field_int32-numeric t flen bytes)

    text_eq :
        (extract_field_str lib card target (type_code t) 64).1
        ≡ take 63 (lib.print (shown t flen bytes))
    unfolding extract_field_str
    text_eq = rw (found, extract_field_str) (field_text-numeric lib t flen bytes)

    -- For a field of a numeric type that is in the card, and below 2 ^ 31 if it is a word without a
    -- sign, the comparison of its number gives for every operator what that of its text gives.
    pub compare_int-direct :
        (op : QueryOp) (v : List ℕ)
        → (is_word t ≡ false) ⊎ (value32 flen bytes < 2 ^ 31)
        → (z : ℤ) × (extract_field_int32 card target (type_code t) ≡ some z)
          × (compare_int lib (extract_field_str lib card target (type_code t) 64).1 op v
              ≡ compare_int_direct lib z op v)
    compare_int-direct op v small =
        let z = taken t flen bytes in
        let range = taken-InInt32 t flen bytes in
        let len = laws.length-print z range in
        let text : (extract_field_str lib card target (type_code t) 64).1 ≡ lib.print z =
          text_eq
          ∙ ap (λ x. take 63 (lib.print x)) (sym (taken-shown t flen bytes small))
          ∙ take_all 63 (lib.print z) (omega (arith, len)) in
        (z, number_eq, ap (λ x. compare_int lib x op v) text ∙ compare_int-print z op v range)

    -- A word without a sign from 2 ^ 31 on: by its text it is greater than a number below 2 ^ 31 - 1,
    -- and by its number it is not.
    pub compare_int_direct_differs :
        (v : List ℕ) (m : ℕ)
        → is_word t ≡ true
        → 2 ^ 31 ≤ value32 flen bytes
        → lib.strtol v ≡ pos m
        → m < 2 ^ 31 - 1
        → (z : ℤ) × (extract_field_int32 card target (type_code t) ≡ some z)
          × (compare_int lib (extract_field_str lib card target (type_code t) 64).1 gt v ≡ true)
          × (compare_int_direct lib z gt v ≡ false)
    unfolding compare_int compare_int_direct less_int
    compare_int_direct_differs v m word large e small =
        let n = value32 flen bytes in
        let (is_shown, is_taken) = word_values t flen bytes word large in
        let len = laws.length-print_word n (value32-lt flen bytes) in
        let text : (extract_field_str lib card target (type_code t) 64).1 ≡ lib.print (pos n) =
          text_eq
          ∙ ap (λ x. take 63 (lib.print x)) is_shown
          ∙ take_all 63 (lib.print (pos n)) (omega (arith, len)) in
        let most : lib.strtol (extract_field_str lib card target (type_code t) 64).1
            ≡ pos (2 ^ 31 - 1) =
          ap lib.strtol text ∙ laws.strtol-print_large n large (value32-lt flen bytes) in
        (
          taken t flen bytes,
          number_eq,
          ap (λ x. less_int x (lib.strtol (extract_field_str lib card target (type_code t) 64).1)) e
              ∙ ap (less_int (pos m)) most
              ∙ ground arith,
          ap (λ x. less_int x (taken t flen bytes)) e ∙ ap (less_int (pos m)) is_taken,
        )
