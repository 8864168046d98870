-- ===== src/Metadata/Tests.antt =====
-- A concrete run of the dictionary, over a store that is a list of records.
use picowal.Prelude.{
  replicate, ℕ, ◌≡◌, refl, true, some, none, List, [], ◌∷◌, arith, ◌==◌, if◌then◌else◌,
}
use picowal.Metadata.{MetaStore, Dict, metadata_set_schema, metadata_get_schema}
use picowal.Metadata.Names.{metadata_key}
use picowal.Metadata.FieldTypes.{
  metadata_field_type_name, metadata_field_type_parse, field_type_parse-name,
}
use picowal.Metadata.Schema.{metadata_get_schema-set_schema}

-- The last put counts.
abbrev last_put : MetaStore
last_put = record {
  Store = ℕ × List ℕ;
  put = λ s k v. (true, (k, v));
  get_copy = λ s k c. if s.0 == k then some (s.1, 1) else none;
  range = λ s k mask n. [];
  stack = λ n. replicate n 0xAA;
}

abbrev blank : Dict last_put
blank = record { store = (0, []); types = []; fields = []; schemas = [] }

metadata_get_schema-set_schema_example :
    let (ok, s') = metadata_set_schema last_put blank 7 (1 ∷ 300 ∷ []) in
    (ok ≡ true)
    × (metadata_get_schema last_put s' 7
        ≡ some (record { ordinal = 7; field_ordinals = 1 ∷ 300 ∷ [] }))
unfolding metadata_key
metadata_get_schema-set_schema_example =
    metadata_get_schema-set_schema last_put blank 7 (1 ∷ 300 ∷ []) 1 (omega arith)
      (omega arith, (omega arith, tt)) refl refl (omega arith)

field_type_parse-name_example : metadata_field_type_parse (metadata_field_type_name 18) ≡ some 18
field_type_parse-name_example = field_type_parse-name 18 (omega arith)
