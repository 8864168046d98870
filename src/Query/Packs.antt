-- ===== src/Query/Packs.antt =====
-- The pack schemas of src/query.c and the search of a joined pack. The arrays of a schema are lists of
-- 32 entries; `field_count` is at most 32. An ordinal is the bits of its int16. The count of cards that
-- `search_pack_field` leaves with `set_cardinality` is left out.
pub mod Cached
use mathlib.Core.Bool.{not}
use picowal.Prelude.{
  ℕ, zero, suc, ◌+◌, ◌-◌, ◌*◌, ◌%◌, ◌^◌, Bool, true, false, ◌&&◌, ◌||◌, Option, none, some, List,
  [], ◌∷◌, ◌++◌, length, take, drop, get_or, set, ltb, leb, ◌==◌, if◌then◌else◌,
}
use picowal.Query.Text.{QueryOp, same_text, small_letter}
use picowal.Query.Field.{Decimal, until_zero, extract_field_str, is_numeric_type}
use picowal.Query.Compare.{compare_str, compare_int}

-- The keys of `kv_range` and the bytes of `kv_get_copy` into a buffer.
pub record QueryStore : Type 1 where
  pub Store : Type 0
  pub range : Store → ℕ → ℕ → ℕ → List ℕ
  pub get_copy : Store → ℕ → ℕ → Option (List ℕ)

-- pack_schema_t
pub record PackSchema : Type 0 where
  pub ord : ℕ
  pub field_ords : List ℕ
  pub field_types : List ℕ
  pub field_maxlens : List ℕ
  pub field_names : List (List ℕ)
  pub field_count : ℕ
  pub name : List ℕ

abbrev pub pack_cache_size : ℕ
pack_cache_size = 8

unfoldable pub same_letters : List ℕ → List ℕ → Bool
same_letters [] ds = true
same_letters (c ∷ cs) [] = false
same_letters (c ∷ cs) (d ∷ ds) = (small_letter c == small_letter d) && same_letters cs ds

-- Names of one length that agree but for capital letters.
unfoldable pub same_name : List ℕ → List ℕ → Bool
same_name a b = (length a == length b) && same_letters a b

unfoldable pub cached_pack : List PackSchema → List ℕ → Option PackSchema
cached_pack [] name = none
cached_pack (p ∷ ps) name =
    let rest = cached_pack ps name in if same_name p.name name then some p else rest

-- Field 2: the definitions from the `fi`-th on, of three bytes each.
unfoldable pub read_defs : ℕ → ℕ → ℕ → ℕ → List ℕ → PackSchema → PackSchema
read_defs zero fi fc flen bytes ps = ps
read_defs (suc n) fi fc flen bytes ps =
    let ps' : PackSchema = record ps {
      field_ords = set ps.field_ords fi (get_or bytes (fi * 3) 0 % 32);
      field_types = set ps.field_types fi (get_or bytes (fi * 3 + 1) 0);
      field_maxlens = set ps.field_maxlens fi (get_or bytes (fi * 3 + 2) 0);
    } in
    let rest = read_defs n (fi + 1) fc flen bytes ps' in
    if ltb fi fc && ltb (fi * 3 + 2) flen then rest else ps

-- Field 5: the names with a 0 behind each; `cur` is what stands before in the name.
unfoldable pub read_names : List ℕ → List ℕ → ℕ → ℕ → PackSchema → PackSchema
read_names [] cur ni fc ps = ps
read_names (c ∷ cs) cur ni fc ps =
    let named : PackSchema = record ps { field_names = set ps.field_names ni (take 31 cur) } in
    let next = read_names cs [] (ni + 1) fc named in
    let more = read_names cs (cur ++ (c ∷ [])) ni fc ps in
    if ltb ni fc && ltb ni 32 then (if c == 0 then next else more) else ps

-- What the loop over the fields of a schema card has found.
pub record Scanned : Type 0 where
  pub pname : List ℕ
  pub fc : ℕ
  pub ps : PackSchema

-- One field.
unfoldable pub scan_field : ℕ → ℕ → List ℕ → Scanned → Scanned
scan_field ord flen bytes s =
    let nl = get_or bytes 0 0 in
    if ord == 0
    then (if leb 1 flen
        then record s { pname = until_zero (take (if ltb 31 nl then 31 else nl) (drop 1 bytes)) }
        else s)
    else if ord == 1
    then (if leb 1 flen then record s { fc = get_or bytes 0 0 } else s)
    else if ord == 2
    then record s { ps = read_defs 32 0 s.fc flen bytes s.ps }
    else if ord == 5
    then record s { ps = read_names (take flen bytes) [] 0 s.fc s.ps }
    else s

-- The loop; a round takes at least two bytes.
unfoldable pub scan_fields : ℕ → List ℕ → Scanned → Scanned
scan_fields zero rest s = s
scan_fields (suc fuel) [] s = s
scan_fields (suc fuel) (o ∷ []) s = s
scan_fields (suc fuel) (o ∷ flen ∷ rest) s =
    let later = scan_fields fuel (drop flen rest) (scan_field (o % 32) flen rest s) in
    if ltb (length rest) flen then s else later

-- A card of at least six bytes with the magic.
unfoldable pub scan_card : List ℕ → PackSchema → Option Scanned
scan_card card ps =
    let s : Scanned = record { pname = []; fc = 0; ps = ps } in
    if ltb (length card) 6 || not ((get_or card 0 0 == 0x7D) && (get_or card 1 0 == 0xCA))
    then none
    else some (scan_fields (length card) (drop 4 card) s)

module _ (env : QueryStore) where
  -- The loop over the schema cards. What is read of another card stays in the arrays.
  unfoldable pub scan_packs : env.Store → List ℕ → List ℕ → PackSchema → Option PackSchema
  scan_packs store [] name ps = none
  scan_packs store (k ∷ ks) name ps = elim (env.get_copy store k 256) [
    | none ↦ scan_packs store ks name ps
    | some card ↦ elim (scan_card card ps) [
      | none ↦ scan_packs store ks name ps
      | some s ↦
          let rest = scan_packs store ks name s.ps in
          let read = s.ps in
          if same_name s.pname name
          then some (record read {
            ord = k % 2 ^ 22 % 2 ^ 16;
            field_count = s.fc;
            name = take 31 s.pname;
          })
          else rest
    ]
  ]

  -- The schema and the cache; `ps` is what the schema's memory holds before.
  unfoldable pub resolve_pack :
      env.Store → List PackSchema → List ℕ → PackSchema → Option PackSchema × List PackSchema
  resolve_pack store cache name ps = elim (cached_pack cache name) [
    | some p ↦ (some p, cache)
    | none ↦ elim (scan_packs store (env.range store 0 0xFFC0_0000 64) name ps) [
      | none ↦ (none, cache)
      | some p ↦ (some p, if ltb (length cache) pack_cache_size then cache ++ (p ∷ []) else cache)
    ]
  ]

-- The first of the counted names.
unfoldable pub index_of : List (List ℕ) → List ℕ → ℕ → Option ℕ
index_of [] name i = none
index_of (n ∷ ns) name i =
    let rest = index_of ns name (i + 1) in if same_text n name then some i else rest

unfoldable pub find_field : PackSchema → List ℕ → Option ℕ
find_field ps name = index_of (take ps.field_count ps.field_names) name 0

-- The first of the counted fields that is a lookup with the target's ordinal for its length.
unfoldable pub lookup_of : List ℕ → List ℕ → ℕ → ℕ → Option ℕ
lookup_of [] maxlens target i = none
lookup_of (t ∷ ts) [] target i = none
lookup_of (t ∷ ts) (l ∷ ls) target i =
    let rest = lookup_of ts ls target (i + 1) in
    if (t == 0x12) && (l == target) then some i else rest

unfoldable pub find_lookup_to : PackSchema → PackSchema → Option ℕ
find_lookup_to from to =
    lookup_of (take from.field_count from.field_types) (take from.field_count from.field_maxlens)
      (to.ord % 256) 0

module _ (env : QueryStore) (lib : Decimal) where
  -- The condition on the text of the field.
  unfoldable pub card_passes : PackSchema → ℕ → List ℕ → QueryOp → List ℕ → Bool
  card_passes ps field_idx value op card =
      let type = get_or ps.field_types field_idx 0 in
      let actual = (extract_field_str lib card (get_or ps.field_ords field_idx 0) type 64).1 in
      if is_numeric_type type then compare_int lib actual op value else compare_str actual op value

  -- The loop over the keys, for at most `max` ids.
  unfoldable pub search_keys : env.Store → List ℕ → PackSchema → ℕ → List ℕ → QueryOp → ℕ → List ℕ
  search_keys store [] ps field_idx value op max = []
  search_keys store (k ∷ ks) ps field_idx value op zero = []
  search_keys store (k ∷ ks) ps field_idx value op (suc max) =
      let more = search_keys store ks ps field_idx value op max in
      let skip = search_keys store ks ps field_idx value op (suc max) in
      elim (env.get_copy store k 512) [
        | none ↦ skip
        | some card ↦ if card_passes ps field_idx value op card then (k % 2 ^ 22) ∷ more else skip
      ]

  unfoldable pub search_pack_field : env.Store → PackSchema → ℕ → List ℕ → QueryOp → ℕ → List ℕ
  search_pack_field store ps field_idx value op max =
      search_keys store (env.range store (ps.ord * 2 ^ 22 % 2 ^ 32) 0xFFC0_0000 1024) ps field_idx
        value op max
