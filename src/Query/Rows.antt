-- ===== src/Query/Rows.antt =====
-- The rows of a query without aggregates in src/query.c: the selected fields and the scan of the first
-- pack. The length of a list is what the code counts in `n`.
pub mod Bounded
use picowal.Prelude.{
  ℕ, zero, suc, ◌+◌, ◌-◌, ◌*◌, ◌%◌, ◌^◌, Bool, true, false, ◌&&◌, ◌||◌, Option, none, some, List,
  [], ◌∷◌, ◌++◌, length, take, get_or, ltb, ◌==◌, if◌then◌else◌,
}
use picowal.Query.Text.{same_text, strcasecmp_local}
use picowal.Query.Parse.{QuerySelect, query_max_select}
use picowal.Query.Escape.{escape_field}
use picowal.Query.Field.{ℤ, pos, negsuc, Decimal, extract_field_str, extract_field_int32}
use picowal.Query.Packs.{QueryStore, PackSchema, find_field, find_lookup_to}
use picowal.Query.Plan.{Predicate, row_passes}
use picowal.Query.Where.{is_empty}

-- s_ords, s_types and s_pack_idx at one index; `joined` is none for the first pack.
pub record Selected : Type 0 where
  pub ord : ℕ
  pub type : ℕ
  pub joined : Option PackSchema

-- Every field of the first pack, from two arrays.
unfoldable pub all_fields : List ℕ → List ℕ → List Selected
all_fields [] types = []
all_fields (o ∷ ords) [] = []
all_fields (o ∷ ords) (t ∷ types) =
    (record { ord = o; type = t; joined = none }) ∷ all_fields ords types

-- The first pack of the name, with its place.
unfoldable pub pack_of : List ℕ → List (List ℕ) → List PackSchema → ℕ → Option (ℕ × PackSchema)
pack_of name [] ps i = none
pack_of name (deck ∷ decks) [] i = none
pack_of name (deck ∷ decks) (p ∷ ps) i =
    let rest = pack_of name decks ps (i + 1) in
    if strcasecmp_local name deck || same_text name p.name then some (i, p) else rest

-- The field of a pack; the ordinal 0xFF where there is none of the name.
unfoldable pub select_in : PackSchema → Option PackSchema → List ℕ → Selected
select_in target joined field = elim (find_field target field) [
  | none ↦ record { ord = 0xFF; type = 0; joined = joined }
  | some fi ↦ record {
    ord = get_or target.field_ords fi 0;
    type = get_or target.field_types fi 0;
    joined = joined;
  }
]

unfoldable pub resolve_select :
    PackSchema → List (List ℕ) → List PackSchema → QuerySelect → Selected
resolve_select primary decks ps s =
    let named : Selected = elim (pack_of s.pack decks ps 0) [
      | none ↦ select_in primary none s.field
      | some (i, p) ↦ select_in p (if i == 0 then none else some p) s.field
    ] in
    if is_empty s.pack then select_in primary none s.field else named

unfoldable pub resolve_each :
    PackSchema → List (List ℕ) → List PackSchema → List QuerySelect → List Selected
resolve_each primary decks ps [] = []
resolve_each primary decks ps (s ∷ ss) =
    resolve_select primary decks ps s ∷ resolve_each primary decks ps ss

-- The selected fields, at most 16; all of the first pack if the query names none.
unfoldable pub resolve_selects :
    PackSchema → List (List ℕ) → List PackSchema → List QuerySelect → List Selected
resolve_selects primary decks ps [] =
    let n =
      if ltb query_max_select primary.field_count then query_max_select else primary.field_count in
    take n (all_fields primary.field_ords primary.field_types)
resolve_selects primary decks ps (s ∷ ss) =
    take query_max_select (resolve_each primary decks ps (s ∷ ss))

-- The low 22 bits of an int32.
unfoldable pub card_bits : ℤ → ℕ
card_bits (pos n) = n % 2 ^ 22
card_bits (negsuc n) = (2 ^ 32 - 1 - n) % 2 ^ 22

module _ (env : QueryStore) (lib : Decimal) (store : env.Store) (primary : PackSchema) where
  -- The card of a joined pack that the lookup field of a card names.
  unfoldable pub joined_card : PackSchema → List ℕ → Option (List ℕ)
  joined_card joined card = elim (find_lookup_to primary joined) [
    | none ↦ none
    | some lf ↦
        let ref : ℕ =
          elim (extract_field_int32 card (get_or primary.field_ords lf 0)
            (get_or primary.field_types lf 0)) [ none ↦ 0 | some z ↦ card_bits z ] in
        env.get_copy store (joined.ord * 2 ^ 22 % 2 ^ 32 + ref) 512
  ]

  -- The text of a selected field; the empty one where nothing is written.
  unfoldable pub selected_text : List ℕ → Selected → List ℕ
  selected_text card s =
      let own = (extract_field_str lib card s.ord s.type 64).1 in
      let joined_text : List ℕ = elim s.joined [
        | none ↦ own
        | some joined ↦ elim (joined_card joined card) [
          | none ↦ []
          | some ref_card ↦ (extract_field_str lib ref_card s.ord s.type 64).1
        ]
      ] in
      if s.ord == 0xFF then [] else joined_text

  -- The loop over the selected fields, while more than 100 bytes are left.
  unfoldable pub write_fields : ℕ → List ℕ → Bool → List ℕ → List Selected → List ℕ
  write_fields buf_size card first out [] = out
  write_fields buf_size card first out (s ∷ ss) =
      let barred =
        if first then out else if ltb (length out + 1) buf_size then out ++ (b'|' ∷ []) else out in
      let written = barred ++ escape_field (buf_size - length barred) (selected_text card s) in
      let rest = write_fields buf_size card false written ss in
      if ltb (length out + 100) buf_size then rest else out

  unfoldable pub end_row : ℕ → List ℕ → List ℕ
  end_row buf_size out = if ltb (length out + 2) buf_size then out ++ (13 ∷ 10 ∷ []) else out

  -- The loop over the keys: the rows, for at most `left` cards that pass, and their number.
  unfoldable pub write_rows : ℕ → List Predicate → List Selected → List ℕ → ℕ → List ℕ → List ℕ × ℕ
  write_rows buf_size preds sels [] left out = (out, 0)
  write_rows buf_size preds sels (k ∷ ks) zero out = (out, 0)
  write_rows buf_size preds sels (k ∷ ks) (suc left) out =
      let skip = write_rows buf_size preds sels ks (suc left) out in
      elim (env.get_copy store k 512) [
        | none ↦ skip
        | some card ↦
            let row = end_row buf_size (write_fields buf_size card true out sels) in
            let rest = write_rows buf_size preds sels ks left row in
            if row_passes lib card preds then (rest.0, rest.1 + 1) else skip
      ]

  -- The scan of at most 256 cards of the first pack, for at most 100 rows.
  unfoldable pub scan_rows : ℕ → List Predicate → List Selected → List ℕ × ℕ
  scan_rows buf_size preds sels =
      write_rows buf_size preds sels
        (env.range store (primary.ord * 2 ^ 22 % 2 ^ 32) 0xFFC0_0000 256) 100 []
