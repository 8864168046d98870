-- ===== src/Query/Tests.antt =====
-- Runs of src/query.c, with decimal texts of ten digits.
use picowal.Prelude.{
  ℕ, zero, suc, ◌+◌, ◌-◌, ◌*◌, ◌/◌, ◌%◌, ◌^◌, ◌<◌, ◌≤◌, ◌≡◌, refl, ap, ◌∙◌, true, false, ltb, some,
  List, [], ◌∷◌, ◌++◌, length, arith, inl, if◌then◌else◌, ◌==◌, codes, length-append, Option, none,
}
use picowal.Query.Text.{small_letter, eq, gt}
use picowal.Query.Parse.{query_parse}
use picowal.Query.Parse.Fits.{IsWithin, query_parse-IsWithin}
use picowal.Query.Packs.{
  QueryStore, PackSchema, resolve_pack, cached_pack, scan_packs, scan_card, scan_fields, scan_field,
  read_defs, read_names, same_name, same_letters,
}
use picowal.Query.Packs.Cached.{resolve_pack_again}
use picowal.Query.Rows.{Selected, scan_rows}
use picowal.Query.Rows.Bounded.{scan_rows_bounded}
use picowal.Query.Plan.{Predicate, plan_predicates, row_passes}
use picowal.Query.Plan.Order.{row_passes-plan}
use picowal.Query.Escape.Row.{read_fields, write_row, read_fields-write_row}
use picowal.Query.Fanout.{Fanout, fanout_update, fanout_estimate, fanout_estimate-update}
use picowal.Query.Field.{
  ℤ, pos, negsuc, Decimal, value32, card_field, find_ord, until_zero, extract_field_str,
  extract_field_int32,
}
use picowal.Query.Numeric.{InInt32, DecimalLaws, u32, i32}
use picowal.Query.Compare.{compare_int, compare_int_direct}
use picowal.Query.Compare.Direct.{compare_int-direct, compare_int_direct_differs}

abbrev digits : ℕ → ℕ → List ℕ
digits zero n = []
digits (suc k) n = digits k (n / 10) ++ ((b'0' + n % 10) ∷ [])

abbrev number : List ℕ → ℕ → ℕ
number [] a = a
number (c ∷ cs) a = number cs (a * 10 + (c - b'0'))

abbrev bound : ℕ → ℕ
bound zero = 1
bound (suc k) = 10 * bound k

number-append : (xs ys : List ℕ) (a : ℕ) → number (xs ++ ys) a ≡ number ys (number xs a)
number-append [] ys a = refl
number-append (x ∷ xs) ys a = number-append xs ys (a * 10 + (x - b'0'))

number-digits : (k n : ℕ) → n < bound k → number (digits k n) 0 ≡ n
number-digits zero n h = omega arith
number-digits (suc k) n h = omega (
  arith,
  number-append (digits k (n / 10)) ((b'0' + n % 10) ∷ []) 0,
  number-digits k (n / 10) (omega arith),
)

length-digits : (k n : ℕ) → length (digits k n) ≡ k
length-digits zero n = refl
length-digits (suc k) n =
    omega
      (arith, length-append (digits k (n / 10)) ((b'0' + n % 10) ∷ []), length-digits k (n / 10))

abbrev negated : ℕ → ℤ
negated zero = pos 0
negated (suc n) = negsuc n

abbrev at_most : ℕ → ℤ
at_most n = if ltb (2 ^ 31 - 1) n then pos (2 ^ 31 - 1) else pos n

abbrev print_decimal : ℤ → List ℕ
print_decimal (pos n) = b'+' ∷ digits 10 n
print_decimal (negsuc n) = b'-' ∷ digits 10 (suc n)

abbrev read_decimal : List ℕ → ℤ
read_decimal [] = pos 0
read_decimal (c ∷ cs) =
    if c == b'-'
    then negated (number cs 0)
    else if c == b'+'
    then at_most (number cs 0)
    else at_most (number (c ∷ cs) 0)

abbrev decimal : Decimal
decimal = record { print = print_decimal; strtol = read_decimal }

print-length : (z : ℤ) → length (print_decimal z) ≤ 11
print-length (pos n) = omega (arith, length-digits 10 n)
print-length (negsuc n) = omega (arith, length-digits 10 (suc n))

read-print : (z : ℤ) → InInt32 z → read_decimal (print_decimal z) ≡ z
read-print (pos n) h = ap at_most (number-digits 10 n (omega arith)) ∙ ground arith
read-print (negsuc n) h = ap negated (number-digits 10 (suc n) (omega arith))

read-print_large :
    (n : ℕ) → 2 ^ 31 ≤ n → n < 2 ^ 32 → read_decimal (print_decimal (pos n)) ≡ pos (2 ^ 31 - 1)
read-print_large n h g = ap at_most (number-digits 10 n (omega arith)) ∙ ground arith

decimal-DecimalLaws : DecimalLaws decimal
decimal-DecimalLaws = record {
  length-print = λ z h. print-length z;
  length-print_word = λ n h. print-length (pos n);
  strtol-print = read-print;
  strtol-print_large = read-print_large;
}

abbrev card : List ℕ
card = 0x7D ∷ 0xCA ∷ 1 ∷ 0 ∷ 2 ∷ 1 ∷ 9 ∷ 5 ∷ 4 ∷ 254 ∷ 255 ∷ 255 ∷ 255 ∷ []

card-found : card_field card 5 ≡ some (4, 254 ∷ 255 ∷ 255 ∷ 255 ∷ [])
unfolding card_field find_ord
card-found = refl

compare_int-direct_example :
    (z : ℤ) × (extract_field_int32 card 5 0x06 ≡ some z)
    × (compare_int decimal (extract_field_str decimal card 5 0x06 64).1 gt (codes "-7")
        ≡ compare_int_direct decimal z gt (codes "-7"))
compare_int-direct_example =
    compare_int-direct decimal-DecimalLaws card 5 i32 4 (254 ∷ 255 ∷ 255 ∷ 255 ∷ []) card-found gt
      (codes "-7") (inl refl)

compare_int_direct_differs_example :
    (z : ℤ) × (extract_field_int32 card 5 0x03 ≡ some z)
    × (compare_int decimal (extract_field_str decimal card 5 0x03 64).1 gt (codes "100") ≡ true)
    × (compare_int_direct decimal z gt (codes "100") ≡ false)
unfolding value32
compare_int_direct_differs_example =
    compare_int_direct_differs decimal-DecimalLaws card 5 u32 4 (254 ∷ 255 ∷ 255 ∷ 255 ∷ [])
      card-found (codes "100") 100 refl (omega arith) refl (omega arith)

read_fields-write_row_example :
    read_fields (write_row 64 (codes "a|b") (codes "c\\d" ∷ [] ∷ []))
    ≡ codes "a|b" ∷ codes "c\\d" ∷ [] ∷ []
read_fields-write_row_example =
    read_fields-write_row 64 (codes "a|b") (codes "c\\d" ∷ [] ∷ [])
      (omega arith, (omega arith, (omega arith, tt)))

abbrev countries : Fanout
countries = record {
  child_pack = 7;
  link_ord = 2;
  parent_pack = 3;
  total_children = 60;
  distinct_parents = 12;
}

fanout_estimate-update_example :
    fanout_estimate (fanout_update (record countries { link_ord = 1 } ∷ []) countries) 7 2 ≡ 60 / 12
fanout_estimate-update_example =
    fanout_estimate-update countries (omega arith) (record countries { link_ord = 1 } ∷ [])

abbrev question : List ℕ
question = codes "S:name,SUM|area" ++ (10 ∷ codes "F:countries") ++ (10 ∷ codes "W:code|IN|GB,US")

query_parse-IsWithin_example :
    IsWithin (query_parse question)
    × ((query_parse question).valid ≡ ltb 0 (length (query_parse question).from_decks))
query_parse-IsWithin_example = query_parse-IsWithin question (omega arith)

-- A store that is one schema card, or none.
abbrev one_schema : QueryStore
one_schema = record {
  Store = Option (List ℕ);
  range = λ s prefix mask max. elim s [ none ↦ [] | some _ ↦ 3 ∷ [] ];
  get_copy = λ s k room. s;
}

abbrev schema_card : List ℕ
schema_card =
    0x7D
    ∷ 0xCA
    ∷ 1
    ∷ 0
    ∷ 0
    ∷ 5
    ∷ 4
    ∷ (codes "Days" ++ (1 ∷ 1 ∷ 1 ∷ 2 ∷ 3 ∷ 0 ∷ 9 ∷ 12 ∷ 5 ∷ 5 ∷ (codes "name" ++ (0 ∷ []))))

abbrev empty_schema : PackSchema
empty_schema = record {
  ord = 0;
  field_ords = 0 ∷ [];
  field_types = 0 ∷ [];
  field_maxlens = 0 ∷ [];
  field_names = [] ∷ [];
  field_count = 0;
  name = [];
}

abbrev days_schema : PackSchema
days_schema = record {
  ord = 3;
  field_ords = 0 ∷ [];
  field_types = 9 ∷ [];
  field_maxlens = 12 ∷ [];
  field_names = codes "name" ∷ [];
  field_count = 1;
  name = codes "Days";
}

days_resolved :
    resolve_pack one_schema (some schema_card) [] (codes "days") empty_schema
    ≡ (some days_schema, days_schema ∷ [])
unfolding resolve_pack cached_pack scan_packs scan_card scan_fields scan_field read_defs read_names
    same_name same_letters until_zero small_letter
days_resolved = refl

resolve_pack_again_example :
    resolve_pack one_schema none (days_schema ∷ []) (codes "days") empty_schema
    ≡ (some days_schema, days_schema ∷ [])
resolve_pack_again_example =
    resolve_pack_again one_schema (some schema_card) none [] (days_schema ∷ []) (codes "days")
      empty_schema empty_schema days_schema (omega arith) days_resolved

abbrev conditions : List Predicate
conditions =
    (record { ord = 2; type = 0x01; op = gt; value = codes "3" })
    ∷ (record { ord = 5; type = 0x06; op = eq; value = codes "-2" })
    ∷ []

row_passes-plan_example :
    row_passes decimal card (plan_predicates (countries ∷ []) 7 1000 conditions)
    ≡ row_passes decimal card conditions
row_passes-plan_example = row_passes-plan decimal card (countries ∷ []) 7 1000 conditions

-- The cards 1 and 2 of a pack are `card`.
abbrev two_cards : QueryStore
two_cards = record {
  Store = Unit;
  range = λ s prefix mask max. (3 * 2 ^ 22 + 1) ∷ (3 * 2 ^ 22 + 2) ∷ [];
  get_copy = λ s k room. some card;
}

abbrev selected : List Selected
selected =
    (record { ord = 2; type = 0x01; joined = none })
    ∷ (record { ord = 5; type = 0x06; joined = none })
    ∷ []

scan_rows_bounded_example :
    (length (scan_rows two_cards decimal tt days_schema 200 conditions selected).0 < 200)
    × ((scan_rows two_cards decimal tt days_schema 200 conditions selected).1 ≤ 100)
scan_rows_bounded_example =
    scan_rows_bounded two_cards decimal tt days_schema 200 conditions selected (omega arith)
