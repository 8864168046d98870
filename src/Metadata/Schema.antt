-- ===== src/Metadata/Schema.antt =====
-- `metadata_set_schema` and `metadata_get_schema` of src/metadata_dict.c, one after the other.
use picowal.Prelude.{
  ℕ, ◌+◌, ◌*◌, ◌/◌, ◌%◌, ◌^◌, ◌<◌, ◌≤◌, ◌≡◌, refl, true, false, some, List, [], ◌∷◌, arith, length,
  ltb,
}
use picowal.Metadata.Names.{
  max_items, metadata_key, ordinals_of, ordinal_bytes, cache_upsert, cache_get,
}
use picowal.Metadata.{
  MetaStore, Dict, TypeSchema, schema_record_type, load_schema_from_store, metadata_set_schema,
  metadata_get_schema,
}

-- The ordinals are words.
abbrev pub Ordinals : List ℕ → Type 0
Ordinals [] = Unit
Ordinals (o ∷ os) = (o < 2 ^ 16) × Ordinals os

ordinals_of-ordinal_bytes :
    (os : List ℕ) → Ordinals os → ordinals_of (length os) (ordinal_bytes os) ≡ os
unfolding ordinals_of ordinal_bytes
ordinals_of-ordinal_bytes [] w = refl
ordinals_of-ordinal_bytes (o ∷ os) w =
    let e : o % 256 + 256 * (o / 256 % 256) ≡ o = omega (arith, w.0) in
    rw (e, ordinals_of-ordinal_bytes os w.1) refl

length-ordinal_bytes : (os : List ℕ) → length (ordinal_bytes os) ≡ length os * 2
unfolding ordinal_bytes
length-ordinal_bytes [] = omega arith
length-ordinal_bytes (o ∷ os) = omega (arith, length-ordinal_bytes os)

module _ {A : Type 0} (ordinal_of : A → ℕ) where
  cache_get-cache_upsert :
      (n : ℕ) (xs : List A) (ordinal : ℕ) (a : A)
      → ordinal_of a ≡ ordinal
      → n + length xs < max_items
      → cache_get ordinal_of (cache_upsert ordinal_of n xs ordinal (some a)) ordinal ≡ some a
  unfolding cache_get cache_upsert
  cache_get-cache_upsert n [] ordinal a e room = ground arith
  cache_get-cache_upsert n (x ∷ xs) ordinal a e room =
      ground (arith, cache_get-cache_upsert (n + 1) xs ordinal a e (omega arith))

module _ (kv : MetaStore) (s : Dict kv) (type_ordinal : ℕ) (field_ordinals : List ℕ) where
  abbrev key : ℕ
  key = metadata_key schema_record_type type_ordinal

  abbrev bytes : List ℕ
  bytes = length field_ordinals ∷ ordinal_bytes field_ordinals

  abbrev schema : TypeSchema
  schema = record { ordinal = type_ordinal; field_ordinals = field_ordinals }

  load_schema-eq :
      (store : kv.Store) (version : ℕ)
      → length field_ordinals ≤ max_items
      → Ordinals field_ordinals
      → kv.get_copy store key 130 ≡ some (bytes, version)
      → load_schema_from_store kv store type_ordinal ≡ some schema
  unfolding load_schema_from_store
  load_schema-eq store version few w e =
      rw (e, load_schema_from_store)
        (ground
          (arith, length-ordinal_bytes field_ordinals, ordinals_of-ordinal_bytes field_ordinals w))

  -- For a schema of at most 64 ordinals that are words, with room in the cache: where the put of its
  -- record succeeds and is read back, the schema is set, and is then the one that is found for its
  -- type.
  pub metadata_get_schema-set_schema :
      (version : ℕ)
      → length field_ordinals ≤ max_items
      → Ordinals field_ordinals
      → (kv.put s.store key bytes).0 ≡ true
      → kv.get_copy (kv.put s.store key bytes).1 key 130 ≡ some (bytes, version)
      → length s.schemas < max_items
      → let (ok, s') = metadata_set_schema kv s type_ordinal field_ordinals in
        (ok ≡ true) × (metadata_get_schema kv s' type_ordinal ≡ some schema)
  unfolding metadata_set_schema metadata_get_schema
  metadata_get_schema-set_schema version few w ok back room =
      let store = (kv.put s.store key bytes).1 in
      let loaded = load_schema-eq store version few w back in
      let fits : ltb max_items (length field_ordinals) ≡ false = ground arith in
      rw fits (
        rw ok (
          refl,
          rw loaded (
              cache_get-cache_upsert (λ (d : TypeSchema). d.ordinal) 0 s.schemas type_ordinal schema
                refl (omega arith)),
        ))
