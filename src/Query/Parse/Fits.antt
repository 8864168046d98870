-- ===== src/Query/Parse/Fits.antt =====
-- The sizes of what `query_parse` of src/query.c gives, and the arrays of query_t.
use picowal.Prelude.{
  ℕ, zero, suc, ◌%◌, ◌^◌, ◌<◌, ◌≤◌, ◌≡◌, refl, sym, ap, ◌∙◌, ◌&&◌, none, some, List, [], ◌∷◌, ◌++◌,
  length, take, drop, ◌+◌, ◌-◌, length-take_le, ltb, leb, ◌==◌, arith, if_intro, Option-cases, inl,
  inr, length-append,
}
use picowal.Query.Text.{split_dotted, cut_at, skip_spaces, parse_op}
use picowal.Query.Parse.{
  QuerySelect, QueryWhere, Query, query_max_where, no_query, list_items, parse_select,
  parse_selects, deck_names, parse_where, add_selects, add_where, parse_line, parse_lines,
  query_parse, query_lines, sanitize,
}

abbrev AllSelects : List QuerySelect → Type 0
AllSelects [] = Unit
AllSelects (s ∷ ss) = ((length s.pack ≤ 31) × (length s.field ≤ 31)) × AllSelects ss

abbrev AllDecks : List (List ℕ) → Type 0
AllDecks [] = Unit
AllDecks (d ∷ ds) = (length d ≤ 31) × AllDecks ds

abbrev AllWheres : List QueryWhere → Type 0
AllWheres [] = Unit
AllWheres (w ∷ ws) =
    ((length w.pack ≤ 31) × (length w.field ≤ 31) × (length w.value ≤ 63)) × AllWheres ws

-- The counts, and the texts with their final 0, are within the arrays.
pub record IsWithin (q : Query) : Type 0 where
  pub selects_in : length q.select_fields + length q.left_over ≤ 16
  pub decks_in : length q.from_decks ≤ 4
  pub wheres_in : length q.wheres ≤ 8
  pub selects_fit : AllSelects q.select_fields
  pub decks_fit : AllDecks q.from_decks
  pub wheres_fit : AllWheres q.wheres

split_dotted-le : (s : List ℕ) → (length (split_dotted s).0 ≤ 31) × (length (split_dotted s).1 ≤ 31)
unfolding split_dotted
split_dotted-le s = elim (Option-cases (cut_at b'.' s).1) [
  | inl e ↦ rw (e, split_dotted) (omega arith, length-take_le 31 s)
  | inr (field, e) ↦
      rw (e, split_dotted) (length-take_le 31 (cut_at b'.' s).0, length-take_le 31 field)
]

parse_select-le :
    (f : List ℕ) → (length (parse_select f).pack ≤ 31) × (length (parse_select f).field ≤ 31)
unfolding parse_select
parse_select-le f = elim (Option-cases (cut_at b'|' f).1) [
  | inl e ↦ rw (e, parse_select) (split_dotted-le f)
  | inr (behind, e) ↦ rw (e, parse_select) (split_dotted-le (skip_spaces behind))
]

parse_selects-fit : (fs : List (List ℕ)) → AllSelects (parse_selects fs)
unfolding parse_selects
parse_selects-fit [] = tt
parse_selects-fit (f ∷ fs) = (parse_select-le f, parse_selects-fit fs)

deck_names-fit : (fs : List (List ℕ)) → AllDecks (deck_names fs)
unfolding deck_names
deck_names-fit [] = tt
deck_names-fit (f ∷ fs) = (length-take_le 31 f, deck_names-fit fs)

AllSelects-take : (n : ℕ) (xs : List QuerySelect) → AllSelects xs → AllSelects (take n xs)
AllSelects-take zero xs p = tt
AllSelects-take (suc n) [] p = tt
AllSelects-take (suc n) (x ∷ xs) p = (p.0, AllSelects-take n xs p.1)

AllSelects-append :
    (xs ys : List QuerySelect) → AllSelects xs → AllSelects ys → AllSelects (xs ++ ys)
AllSelects-append [] ys p q = q
AllSelects-append (x ∷ xs) ys p q = (p.0, AllSelects-append xs ys p.1 q)

length-drop_le :
    (n m : ℕ) (xs : List QuerySelect) → length xs ≤ m → n ≤ m → n + length (drop n xs) ≤ m
length-drop_le zero m xs h g = omega arith
length-drop_le (suc n) m [] h g = omega arith
length-drop_le (suc n) zero (x ∷ xs) h g = absurd (omega arith)
length-drop_le (suc n) (suc m) (x ∷ xs) h g =
    omega (arith, length-drop_le n m xs (omega arith) (omega arith))

AllDecks-append :
    (n : ℕ) (xs ys : List (List ℕ)) → AllDecks xs → AllDecks ys → AllDecks (take n (xs ++ ys))
AllDecks-append zero xs ys p q = tt
AllDecks-append (suc n) [] [] p q = tt
AllDecks-append (suc n) [] (y ∷ ys) p q = (q.0, AllDecks-append n [] ys tt q.1)
AllDecks-append (suc n) (x ∷ xs) ys p q = (p.0, AllDecks-append n xs ys p.1 q)

AllWheres-add :
    (ws : List QueryWhere) (w : QueryWhere)
    → AllWheres ws
    → (length w.pack ≤ 31) × (length w.field ≤ 31) × (length w.value ≤ 63)
    → AllWheres (ws ++ (w ∷ []))
AllWheres-add [] w p q = (q, tt)
AllWheres-add (v ∷ ws) w p q = (p.0, AllWheres-add ws w p.1 q)

parse_where-le :
    (rest : List ℕ) (w : QueryWhere)
    → parse_where rest ≡ some w
    → (length w.pack ≤ 31) × (length w.field ≤ 31) × (length w.value ≤ 63)
unfolding parse_where
parse_where-le rest w h = elim (Option-cases (cut_at b'|' rest).1) [
  | inl e ↦ let q : none ≡ some w = sym (rw (e, parse_where) refl) ∙ h in absurd (cc q)
  | inr (behind, e) ↦ elim (Option-cases (cut_at b'|' behind).1) [
    | inl f ↦ let q : none ≡ some w = sym (rw (e, parse_where) (rw f refl)) ∙ h in absurd (cc q)
    | inr (val, f) ↦
        let s = skip_spaces (cut_at b'|' rest).0 in
        let w' : QueryWhere = record {
          pack = (split_dotted s).0;
          field = (split_dotted s).1;
          op = parse_op (skip_spaces (cut_at b'|' behind).0);
          value = take 63 (skip_spaces val);
        } in
        let q : some w' ≡ some w = sym (rw (e, parse_where) (rw f refl)) ∙ h in
        let same : w' ≡ w = cc q in
        let p = split_dotted-le s in
        (
          omega (arith, p.0, ap (λ (x : QueryWhere). length x.pack) same),
          omega (arith, p.1, ap (λ (x : QueryWhere). length x.field) same),
          omega (
            arith,
            length-take_le 63 (skip_spaces val),
            ap (λ (x : QueryWhere). length x.value) same,
          ),
        )
  ]
]

add_selects-IsWithin : (q : Query) (f : List ℕ) → IsWithin q → IsWithin (add_selects q f)
unfolding add_selects
add_selects-IsWithin q [] w = w
add_selects-IsWithin q (c ∷ cs) w =
    let room = 16 - length q.select_fields in
    let new = take room (parse_selects (list_items (c ∷ cs))) in
    let few : length new ≤ room = length-take_le room (parse_selects (list_items (c ∷ cs))) in
    let left : length q.left_over ≤ room = omega (arith, w.selects_in) in
    if_intro IsWithin (c == b'*')
      (λ e. record {
        selects_in = omega (arith, w.selects_in, length-append q.select_fields q.left_over);
        decks_in = w.decks_in;
        wheres_in = w.wheres_in;
        selects_fit = tt;
        decks_fit = w.decks_fit;
        wheres_fit = w.wheres_fit;
      })
      (λ e. record {
        selects_in = omega (
          arith,
          w.selects_in,
          length-append q.select_fields new,
          length-drop_le (length new) room q.left_over left few,
        );
        decks_in = w.decks_in;
        wheres_in = w.wheres_in;
        selects_fit =
            AllSelects-append q.select_fields new w.selects_fit
              (AllSelects-take room _ (parse_selects-fit (list_items (c ∷ cs))));
        decks_fit = w.decks_fit;
        wheres_fit = w.wheres_fit;
      })

add_where-IsWithin :
    (q : Query) (rest : List ℕ) → length q.wheres < 8 → IsWithin q → IsWithin (add_where q rest)
unfolding add_where
add_where-IsWithin q rest h w = elim (Option-cases (parse_where rest)) [
  | inl e ↦ rw (e, add_where) w
  | inr (v, e) ↦
      rw (e, add_where)
        (record {
          selects_in = w.selects_in;
          decks_in = w.decks_in;
          wheres_in = omega (arith, length-append q.wheres (v ∷ []));
          selects_fit = w.selects_fit;
          decks_fit = w.decks_fit;
          wheres_fit = AllWheres-add q.wheres v w.wheres_fit (parse_where-le rest v e);
        })
]

parse_line-IsWithin : (q : Query) (l : List ℕ) → IsWithin q → IsWithin (parse_line q l)
unfolding parse_line
parse_line-IsWithin q [] w = w
parse_line-IsWithin q (k ∷ []) w = w
parse_line-IsWithin q (k ∷ colon ∷ rest) w =
    let decks = deck_names (list_items rest) in
    if_intro IsWithin ((k == b'S') && (colon == b':'))
      (λ e. add_selects-IsWithin q (skip_spaces rest) w)
      (λ e.
        if_intro IsWithin ((k == b'F') && (colon == b':'))
          (λ f. record {
            selects_in = w.selects_in;
            decks_in = length-take_le 4 (q.from_decks ++ decks);
            wheres_in = w.wheres_in;
            selects_fit = w.selects_fit;
            decks_fit =
                AllDecks-append 4 q.from_decks decks w.decks_fit (deck_names-fit (list_items rest));
            wheres_fit = w.wheres_fit;
          })
          (λ f.
            if_intro IsWithin
              ((k == b'W') && (colon == b':') && ltb (length q.wheres) query_max_where)
              (λ g. add_where-IsWithin q rest (ground arith) w) (λ g. w)))

parse_lines-IsWithin : (q : Query) (ls : List (List ℕ)) → IsWithin q → IsWithin (parse_lines q ls)
unfolding parse_lines
parse_lines-IsWithin q [] w = w
parse_lines-IsWithin q (l ∷ ls) w =
    parse_lines-IsWithin (parse_line q (skip_spaces l)) ls (parse_line-IsWithin q (skip_spaces l) w)

no_query-IsWithin : IsWithin no_query
no_query-IsWithin = record {
  selects_in = omega arith;
  decks_in = omega arith;
  wheres_in = omega arith;
  selects_fit = tt;
  decks_fit = tt;
  wheres_fit = tt;
}

-- Whatever the text of fewer than 2^16 characters is, the parsed query has at most 16 selected fields,
-- 4 packs and 8 conditions, its texts fit their buffers, and it is valid if and only if it names a pack.
pub query_parse-IsWithin :
    (text : List ℕ)
    → length text < 2 ^ 16
    → IsWithin (query_parse text)
      × ((query_parse text).valid ≡ ltb 0 (length (query_parse text).from_decks))
unfolding query_parse
query_parse-IsWithin text short =
    let tlen = length text % 2 ^ 16 in
    let q = parse_lines no_query (query_lines (sanitize (take tlen text))) in
    let w =
      parse_lines-IsWithin no_query (query_lines (sanitize (take tlen text))) no_query-IsWithin in
    if_intro (λ r. IsWithin r × (r.valid ≡ ltb 0 (length r.from_decks))) (leb 512 tlen)
      (λ e. (no_query-IsWithin, refl))
      (λ e. (
        record {
          selects_in = w.selects_in;
          decks_in = w.decks_in;
          wheres_in = w.wheres_in;
          selects_fit = w.selects_fit;
          decks_fit = w.decks_fit;
          wheres_fit = w.wheres_fit;
        },
        refl,
      ))
