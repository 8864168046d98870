-- ===== src/Metadata.antt =====
-- The dictionary of src/metadata_dict.c: the schemas and the types, kept as records of the store and
-- mirrored in caches. A name is its 32 bytes, the last of them zero.
pub mod Names
pub mod FieldTypes
pub mod Schema
pub mod Tests
use picowal.Prelude.{
  ℕ, zero, suc, ◌+◌, ◌*◌, ◌/◌, ◌%◌, ◌^◌, Bool, true, false, ◌&&◌, Option, none, some, List, [], ◌∷◌,
  ◌++◌, length, get_or, set, take, drop, ◌-◌, ltb, leb, ◌==◌, if◌then◌else◌,
}
use mathlib.Core.Bool.{not}
use picowal.Metadata.Names.{
  name_max, max_items, metadata_key, text, name_valid, zero_filled, ordinals_of, ordinal_bytes,
  cache_upsert, cache_get, cache_find,
}

-- What the dictionary calls of the store, and finds on the stack.
pub record MetaStore : Type 1 where
  pub Store : Type 0
  pub put : Store → ℕ → List ℕ → Bool × Store
  pub get_copy : Store → ℕ → ℕ → Option (List ℕ × ℕ)
  -- The keys of `kv_range`, at most so many.
  pub range : Store → ℕ → ℕ → ℕ → List ℕ
  -- What a buffer of so many bytes on the stack holds before it is written.
  pub stack : ℕ → List ℕ

abbrev pub type_record_type : ℕ
type_record_type = 1022

abbrev pub field_record_type : ℕ
field_record_type = 1023

abbrev pub schema_record_type : ℕ
schema_record_type = 0

-- metadata_type_def_t, metadata_field_def_t and metadata_type_schema_t
pub record TypeDef : Type 0 where
  pub ordinal : ℕ
  pub name : List ℕ

pub record FieldDef : Type 0 where
  pub ordinal : ℕ
  pub name : List ℕ
  pub field_type : ℕ
  pub max_len : ℕ

pub record TypeSchema : Type 0 where
  pub ordinal : ℕ
  pub field_ordinals : List ℕ

-- The number of names in g_field_type_names
abbrev pub field_type_count : ℕ
field_type_count = 19

-- The store and the caches g_type_cache, g_field_cache and g_schema_cache.
pub record Dict (kv : MetaStore) : Type 0 where
  pub store : kv.Store
  pub types : List TypeDef
  pub fields : List FieldDef
  pub schemas : List TypeSchema

module _ (kv : MetaStore) where
  -- The bytes of `v`, and behind them those that the buffer on the stack held.
  unfoldable pub over_stack : ℕ → List ℕ → List ℕ
  over_stack n v = take n (v ++ drop (length v) (kv.stack n))

  unfoldable pub load_type_from_store : kv.Store → ℕ → Option TypeDef
  load_type_from_store s ordinal =
      elim (kv.get_copy s (metadata_key type_record_type ordinal) (name_max + 1)) [
        | none ↦ none
        | some (v, _) ↦ some (record {
          ordinal = ordinal;
          name = take name_max (over_stack (name_max + 1) v) ++ (0 ∷ []);
        })
      ]

  -- A metadata_field_record_t has 34 bytes.
  unfoldable pub load_field_from_store : kv.Store → ℕ → Option FieldDef
  load_field_from_store s ordinal =
      elim (kv.get_copy s (metadata_key field_record_type ordinal) 34) [
        | none ↦ none
        | some (v, _) ↦
            let rec_bytes = over_stack 34 v in
            if ltb (length v) 2
            then none
            else some (record {
              ordinal = ordinal;
              name = take name_max (drop 2 rec_bytes) ++ (0 ∷ []);
              field_type = get_or rec_bytes 0 0;
              max_len = get_or rec_bytes 1 0;
            })
      ]

  -- The buffer has 2 + 128 bytes.
  unfoldable pub load_schema_from_store : kv.Store → ℕ → Option TypeSchema
  load_schema_from_store s type_ordinal =
      elim (kv.get_copy s (metadata_key schema_record_type type_ordinal) 130) [
        | none ↦ none
        | some ([], _) ↦ none
        | some (count ∷ bytes, _) ↦
            if ltb max_items count
            then none
            else if ltb (length bytes) (count * 2)
            then none
            else some (record { ordinal = type_ordinal; field_ordinals = ordinals_of count bytes })
      ]

  -- The loop over the keys of the range; `n` entries are in the cache.
  unfoldable pub reload_types : kv.Store → List ℕ → ℕ → List TypeDef
  reload_types s [] n = []
  reload_types s (k ∷ ks) n =
      let skip = reload_types s ks n in
      let more = reload_types s ks (n + 1) in
      if ltb n max_items
      then (elim (load_type_from_store s (k % 2 ^ 22 % 2 ^ 16)) [ none ↦ skip | some d ↦ d ∷ more ])
      else []

  unfoldable pub reload_fields : kv.Store → List ℕ → ℕ → List FieldDef
  reload_fields s [] n = []
  reload_fields s (k ∷ ks) n =
      let skip = reload_fields s ks n in
      let more = reload_fields s ks (n + 1) in
      if ltb n max_items
      then (elim (load_field_from_store s (k % 2 ^ 22 % 2 ^ 16)) [
        | none ↦ skip
        | some d ↦ d ∷ more
      ])
      else []

  unfoldable pub reload_schemas : kv.Store → List ℕ → ℕ → List TypeSchema
  reload_schemas s [] n = []
  reload_schemas s (k ∷ ks) n =
      let skip = reload_schemas s ks n in
      let more = reload_schemas s ks (n + 1) in
      if ltb n max_items
      then (elim (load_schema_from_store s (k % 2 ^ 22 % 2 ^ 16)) [
        | none ↦ skip
        | some d ↦ d ∷ more
      ])
      else []

  abbrev pub keys_of : kv.Store → ℕ → List ℕ
  keys_of s record_type = kv.range s (metadata_key record_type 0) 0xFFC0_0000 max_items

  unfoldable pub metadata_reload_cache : Dict kv → Dict kv
  metadata_reload_cache s = record {
    store = s.store;
    types = reload_types s.store (keys_of s.store type_record_type) 0;
    fields = reload_fields s.store (keys_of s.store field_record_type) 0;
    schemas = reload_schemas s.store (keys_of s.store schema_record_type) 0;
  }

  unfoldable pub metadata_set_type : Dict kv → ℕ → List ℕ → Bool × Dict kv
  metadata_set_type s ordinal name =
      let (ok, store) =
        kv.put s.store (metadata_key type_record_type ordinal) (zero_filled (name_max + 1) name) in
      if not (name_valid name)
      then (false, s)
      else if not ok
      then (false, record s { store = store })
      else (
        true,
        record s {
          store = store;
          types =
              cache_upsert (λ (d : TypeDef). d.ordinal) 0 s.types ordinal
                (load_type_from_store store ordinal);
        },
      )

  unfoldable pub metadata_get_type : Dict kv → ℕ → Option TypeDef
  metadata_get_type s ordinal = cache_get (λ (d : TypeDef). d.ordinal) s.types ordinal

  unfoldable pub metadata_find_type : Dict kv → List ℕ → Option TypeDef
  metadata_find_type s name = cache_find (λ (d : TypeDef). d.name) s.types name

  -- What is copied out, and the number of types.
  unfoldable pub metadata_list_types : Dict kv → ℕ → List TypeDef × ℕ
  metadata_list_types s max = (take max s.types, length s.types)

  unfoldable pub metadata_set_field : Dict kv → ℕ → List ℕ → ℕ → ℕ → Bool × Dict kv
  metadata_set_field s ordinal name field_type max_len =
      let (ok, store) =
        kv.put s.store (metadata_key field_record_type ordinal)
          (field_type ∷ max_len ∷ zero_filled (name_max + 1) name) in
      if not (name_valid name)
      then (false, s)
      else if leb field_type_count field_type
      then (false, s)
      else if not ok
      then (false, record s { store = store })
      else (
        true,
        record s {
          store = store;
          fields =
              cache_upsert (λ (d : FieldDef). d.ordinal) 0 s.fields ordinal
                (load_field_from_store store ordinal);
        },
      )

  unfoldable pub metadata_get_field : Dict kv → ℕ → Option FieldDef
  metadata_get_field s ordinal = cache_get (λ (d : FieldDef). d.ordinal) s.fields ordinal

  unfoldable pub metadata_find_field : Dict kv → List ℕ → Option FieldDef
  metadata_find_field s name = cache_find (λ (d : FieldDef). d.name) s.fields name

  unfoldable pub metadata_list_fields : Dict kv → ℕ → List FieldDef × ℕ
  metadata_list_fields s max = (take max s.fields, length s.fields)

  unfoldable pub metadata_set_schema : Dict kv → ℕ → List ℕ → Bool × Dict kv
  metadata_set_schema s type_ordinal field_ordinals =
      let count = length field_ordinals in
      let (ok, store) =
        kv.put s.store (metadata_key schema_record_type type_ordinal)
          (count ∷ ordinal_bytes field_ordinals) in
      if ltb max_items count
      then (false, s)
      else if not ok
      then (false, record s { store = store })
      else (
        true,
        record s {
          store = store;
          schemas =
              cache_upsert (λ (d : TypeSchema). d.ordinal) 0 s.schemas type_ordinal
                (load_schema_from_store store type_ordinal);
        },
      )

  unfoldable pub metadata_get_schema : Dict kv → ℕ → Option TypeSchema
  metadata_get_schema s type_ordinal =
      cache_get (λ (d : TypeSchema). d.ordinal) s.schemas type_ordinal

  unfoldable pub metadata_list_schemas : Dict kv → ℕ → List TypeSchema × ℕ
  metadata_list_schemas s max = (take max s.schemas, length s.schemas)
