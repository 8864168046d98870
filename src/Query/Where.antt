-- ===== src/Query/Where.antt =====
-- The first half of `query_execute` in src/query.c: the packs of a query and its conditions, each
-- turned into a condition on the first pack. What a failing step prints is an error here.
use picowal.Prelude.{
  ℕ, ◌+◌, ◌-◌, Bool, true, false, ◌||◌, Option, none, some, List, [], ◌∷◌, ◌++◌, length, take,
  get_or, ltb, ◌==◌, if◌then◌else◌,
}
use mathlib.Core.Bool.{not}
use picowal.Query.Text.{is_in, same_text, strcasecmp_local}
use picowal.Query.Parse.{QueryWhere, Query}
use picowal.Query.Field.{pos, Decimal}
use picowal.Query.Packs.{
  QueryStore, PackSchema, resolve_pack, find_field, find_lookup_to, search_pack_field,
}
use picowal.Query.Plan.{Predicate}

pub data QueryError : Type 0 where
  invalid_query : QueryError
  pack_not_found : List ℕ → QueryError
  users_denied : QueryError
  field_not_found : List ℕ → QueryError
  pack_not_in_from : List ℕ → QueryError
  no_lookup : QueryError

-- The conditions on the first pack; `no_rows` where a joined pack has no card that matches.
pub data Conditions : Type 0 where
  failed : QueryError → Conditions
  no_rows : Conditions
  found : List Predicate → Conditions

-- The packs of the FROM line, or its first name that no pack has, and the cache.
pub data FromPacks : Type 0 where
  unknown : List ℕ → FromPacks
  packs : List PackSchema → FromPacks

unfoldable pub add_pack : PackSchema → FromPacks → FromPacks
add_pack p (unknown name) = unknown name
add_pack p (packs ps) = packs (p ∷ ps)

-- `stack` is what the memory of a schema holds before it is read.
module _ (env : QueryStore) (stack : PackSchema) where
  unfoldable pub resolve_from :
      env.Store → List PackSchema → List (List ℕ) → FromPacks × List PackSchema
  resolve_from store cache [] = (packs [], cache)
  resolve_from store cache (deck ∷ decks) =
      let (p, cache') = resolve_pack env store cache deck stack in
      let (rest, cache'') = resolve_from store cache' decks in
      elim p [ none ↦ (unknown deck, cache') | some p ↦ (add_pack p rest, cache'') ]

-- Whether one of the packs is the users'.
unfoldable pub has_users : List PackSchema → Bool
has_users [] = false
has_users (p ∷ ps) = (p.ord == 1) || has_users ps

-- The first pack behind the first whose name in the FROM line or in its schema this is.
unfoldable pub joined_pack : List ℕ → List (List ℕ) → List PackSchema → Option PackSchema
joined_pack name [] ps = none
joined_pack name (deck ∷ decks) [] = none
joined_pack name (deck ∷ decks) (p ∷ ps) =
    let rest = joined_pack name decks ps in
    if strcasecmp_local name deck || same_text name p.name then some p else rest

unfoldable pub is_empty : List ℕ → Bool
is_empty [] = true
is_empty (c ∷ cs) = false

module _ (env : QueryStore) (lib : Decimal) where
  -- The ids with commas in 64 bytes, while fewer than 60 are taken; `len` is what `snprintf` counts.
  unfoldable pub id_list : List ℕ → ℕ → Bool → List ℕ → List ℕ
  id_list out len first [] = out
  id_list out len first (id ∷ ids) =
      let text = lib.print (pos id) in
      let out' = if first then out else out ++ (b',' ∷ []) in
      let len' = if first then len else len + 1 in
      let rest = id_list (out' ++ take (63 - len') text) (len' + length text) false ids in
      if ltb len 60 then rest else out

  -- A condition on the first pack.
  unfoldable pub direct_where : PackSchema → QueryWhere → Conditions
  direct_where primary w = elim (find_field primary w.field) [
    | none ↦ failed (field_not_found w.field)
    | some fi ↦ found (
        record {
          ord = get_or primary.field_ords fi 0;
          type = get_or primary.field_types fi 0;
          op = w.op;
          value = take 63 w.value;
        }
        ∷ [])
  ]

  -- The condition that the lookup of the first pack is one of the ids.
  unfoldable pub lookup_where : PackSchema → PackSchema → List ℕ → Conditions
  lookup_where primary joined ids = elim (find_lookup_to primary joined) [
    | none ↦ failed no_lookup
    | some lf ↦ found (
        record {
          ord = get_or primary.field_ords lf 0;
          type = get_or primary.field_types lf 0;
          op = is_in;
          value = take 63 (id_list [] 0 true ids);
        }
        ∷ [])
  ]

  -- A condition on a joined pack: the ids of the cards that match, at most 64 of them.
  unfoldable pub joined_where : env.Store → PackSchema → PackSchema → QueryWhere → Conditions
  joined_where store primary joined w = elim (find_field joined w.field) [
    | none ↦ failed (field_not_found w.field)
    | some jfi ↦
        let ids = search_pack_field env lib store joined jfi w.value w.op 64 in
        let looked_up = lookup_where primary joined ids in
        if is_empty ids then no_rows else looked_up
  ]

  -- One condition: on the first pack if it names none or that one.
  unfoldable pub resolve_where :
      env.Store → PackSchema → List ℕ → List (List ℕ) → List PackSchema → QueryWhere → Conditions
  resolve_where store primary deck decks others w =
      let elsewhere : Conditions = elim (joined_pack w.pack decks others) [
        | none ↦ failed (pack_not_in_from w.pack)
        | some joined ↦ joined_where store primary joined w
      ] in
      if is_empty w.pack || same_text w.pack primary.name || strcasecmp_local w.pack deck
      then direct_where primary w
      else elsewhere

  unfoldable pub and_then : Conditions → Conditions → Conditions
  and_then (failed e) rest = failed e
  and_then no_rows rest = no_rows
  and_then (found ps) (failed e) = failed e
  and_then (found ps) no_rows = no_rows
  and_then (found ps) (found qs) = found (ps ++ qs)

  -- The loop over the conditions, which ends at the first that fails or has no rows.
  unfoldable pub resolve_wheres :
      env.Store
      → PackSchema
      → List ℕ
      → List (List ℕ)
      → List PackSchema
      → List QueryWhere
      → Conditions
  resolve_wheres store primary deck decks others [] = found []
  resolve_wheres store primary deck decks others (w ∷ ws) =
      and_then (resolve_where store primary deck decks others w)
        (resolve_wheres store primary deck decks others ws)

  -- The conditions of a query over its packs, none of which may be the users'.
  unfoldable pub query_conditions : env.Store → Query → List (List ℕ) → List PackSchema → Conditions
  query_conditions store q [] ps = failed invalid_query
  query_conditions store q (deck ∷ decks) [] = failed invalid_query
  query_conditions store q (deck ∷ decks) (primary ∷ others) =
      if has_users (primary ∷ others)
      then failed users_denied
      else resolve_wheres store primary deck decks others q.wheres

  -- The packs of a valid query, the conditions, and the cache of schemas.
  unfoldable pub prepare_query :
      env.Store → PackSchema → List PackSchema → Query → Conditions × List PackSchema
  prepare_query store stack cache q =
      let resolved = resolve_from env stack store cache q.from_decks in
      let conditions : Conditions = elim resolved.0 [
        | unknown name ↦ failed (pack_not_found name)
        | packs ps ↦ query_conditions store q q.from_decks ps
      ] in
      if not q.valid || (length q.from_decks == 0)
      then (failed invalid_query, cache)
      else (conditions, resolved.1)
