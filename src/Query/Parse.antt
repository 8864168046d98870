-- ===== src/Query/Parse.antt =====
-- `query_parse` of src/query.c, for texts of fewer than 2^16 characters: with a longer one the code may
-- leave its buffer unterminated. A loop that walks over separators and stretches of text is the list
-- of the stretches that are not empty; `char` has no sign.
pub mod Fits
use picowal.Prelude.{
  ℕ, zero, suc, ◌+◌, ◌-◌, ◌*◌, ◌%◌, ◌^◌, Bool, true, false, ◌&&◌, ◌||◌, Option, none, some, List,
  [], ◌∷◌, ◌++◌, length, take, drop, ltb, leb, ◌==◌, if◌then◌else◌, codes,
}
use mathlib.Core.Bool.{not}
use picowal.Query.Text.{
  QueryOp, same_text, parse_op, cut_at, split_dotted, skip_spaces, trim_end, stretches, filled,
  skip_each,
}

-- query_agg_t
pub data QueryAgg : Type 0 where
  no_agg : QueryAgg
  agg_sum : QueryAgg
  agg_avg : QueryAgg
  agg_min : QueryAgg
  agg_max : QueryAgg
  agg_count : QueryAgg
  agg_first : QueryAgg

-- query_select_t
pub record QuerySelect : Type 0 where
  pub pack : List ℕ
  pub field : List ℕ
  pub agg : QueryAgg

-- query_where_t
pub record QueryWhere : Type 0 where
  pub pack : List ℕ
  pub field : List ℕ
  pub op : QueryOp
  pub value : List ℕ

-- query_t, each array with its count as a list. `left_over` is what the elements of select_fields behind
-- the counted ones hold: "S:*" resets the count only.
pub record Query : Type 0 where
  pub select_fields : List QuerySelect
  pub left_over : List QuerySelect
  pub from_decks : List (List ℕ)
  pub wheres : List QueryWhere
  pub valid : Bool

abbrev pub query_max_select : ℕ
query_max_select = 16

abbrev pub query_max_where : ℕ
query_max_where = 8

abbrev pub no_query : Query
no_query = record {
  select_fields = [];
  left_over = [];
  from_decks = [];
  wheres = [];
  valid = false;
}

-- A carriage return ends a line, and another control character is a space.
unfoldable pub sanitize : List ℕ → List ℕ
sanitize [] = []
sanitize (c ∷ cs) =
    (if c == 13 then 10 else if ltb c 0x20 && not (c == 10) then b' ' else c) ∷ sanitize cs

unfoldable pub skip_newlines : List ℕ → List ℕ
skip_newlines [] = []
skip_newlines (c ∷ cs) = if c == 10 then skip_newlines cs else c ∷ cs

-- The lines that are not empty, `n` of them at most. The end of a line is marked when the next one is
-- looked for, so that the last of the `n` runs to the end of the text.
unfoldable pub line_loop : ℕ → List ℕ → List (List ℕ)
line_loop zero buf = []
line_loop (suc zero) buf = filled (skip_newlines buf ∷ [])
line_loop (suc (suc n)) buf =
    let (line, behind) = cut_at 10 (skip_newlines buf) in
    filled (line ∷ []) ++ (elim behind [ none ↦ [] | some rest ↦ line_loop (suc n) rest ])

unfoldable pub query_lines : List ℕ → List (List ℕ)
query_lines buf = line_loop 16 buf

-- The items between the commas, without the spaces before and behind.
unfoldable pub trim_each : List (List ℕ) → List (List ℕ)
trim_each [] = []
trim_each (s ∷ ss) = trim_end s ∷ trim_each ss

unfoldable pub list_items : List ℕ → List (List ℕ)
list_items f = trim_each (filled (skip_each (stretches b',' f)))

unfoldable pub parse_agg : List ℕ → QueryAgg
parse_agg f =
    if same_text f (codes "SUM") || same_text f (codes "sum")
    then agg_sum
    else if same_text f (codes "AVG") || same_text f (codes "avg")
    then agg_avg
    else if same_text f (codes "MIN") || same_text f (codes "min")
    then agg_min
    else if same_text f (codes "MAX") || same_text f (codes "max")
    then agg_max
    else if same_text f (codes "COUNT") || same_text f (codes "count")
    then agg_count
    else if same_text f (codes "FIRST") || same_text f (codes "first")
    then agg_first
    else no_agg

-- One item of the S line, as `field` or `AGG|field`.
unfoldable pub parse_select : List ℕ → QuerySelect
parse_select f = elim (cut_at b'|' f).1 [
  | none ↦ let (pack, field) = split_dotted f in record { pack = pack; field = field; agg = no_agg }
  | some behind ↦
      let (pack, field) = split_dotted (skip_spaces behind) in
      record { pack = pack; field = field; agg = parse_agg (cut_at b'|' f).0 }
]

unfoldable pub parse_selects : List (List ℕ) → List QuerySelect
parse_selects [] = []
parse_selects (f ∷ fs) = parse_select f ∷ parse_selects fs

-- The items of the F line in buffers of 31 characters.
unfoldable pub deck_names : List (List ℕ) → List (List ℕ)
deck_names [] = []
deck_names (f ∷ fs) = take 31 f ∷ deck_names fs

-- The three parts of a W line.
unfoldable pub parse_where : List ℕ → Option QueryWhere
parse_where rest = elim (cut_at b'|' rest).1 [
  | none ↦ none
  | some behind ↦ elim (cut_at b'|' behind).1 [
    | none ↦ none
    | some val ↦
        let (pack, field) = split_dotted (skip_spaces (cut_at b'|' rest).0) in
        some (record {
          pack = pack;
          field = field;
          op = parse_op (skip_spaces (cut_at b'|' behind).0);
          value = take 63 (skip_spaces val);
        })
  ]
]

unfoldable pub add_selects : Query → List ℕ → Query
add_selects q [] = q
add_selects q (c ∷ cs) =
    let items = parse_selects (list_items (c ∷ cs)) in
    let room = query_max_select - length q.select_fields in
    if c == b'*'
    then record q { select_fields = []; left_over = q.select_fields ++ q.left_over }
    else record q {
      select_fields = q.select_fields ++ take room items;
      left_over = drop (length (take room items)) q.left_over;
    }

unfoldable pub add_where : Query → List ℕ → Query
add_where q rest = elim (parse_where rest) [
  | none ↦ q
  | some w ↦ record q { wheres = q.wheres ++ (w ∷ []) }
]

-- One line, its leading spaces skipped.
unfoldable pub parse_line : Query → List ℕ → Query
parse_line q [] = q
parse_line q (k ∷ []) = q
parse_line q (k ∷ colon ∷ rest) =
    if (k == b'S') && (colon == b':')
    then add_selects q (skip_spaces rest)
    else if (k == b'F') && (colon == b':')
    then record q { from_decks = take 4 (q.from_decks ++ deck_names (list_items rest)) }
    else if (k == b'W') && (colon == b':') && ltb (length q.wheres) query_max_where
    then add_where q rest
    else q

unfoldable pub parse_lines : Query → List (List ℕ) → Query
parse_lines q [] = q
parse_lines q (l ∷ ls) = parse_lines (parse_line q (skip_spaces l)) ls

unfoldable pub query_parse : List ℕ → Query
query_parse text =
    let tlen = length text % 2 ^ 16 in
    let q = parse_lines no_query (query_lines (sanitize (take tlen text))) in
    if leb 512 tlen then no_query else record q { valid = ltb 0 (length q.from_decks) }
