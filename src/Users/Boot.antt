-- ===== src/Users/Boot.antt =====
-- `user_auth_init` of src/user_auth.c: the schemas, the reference packs and the first user.
pub mod Admin
use Prim.Native.Nat.{bit_or}
use picowal.Prelude.{
  ℕ, ◌+◌, ◌-◌, ◌*◌, ◌%◌, Bool, true, false, Option, none, some, List, [], ◌∷◌, ◌++◌, length,
  replicate, if◌then◌else◌, codes,
}
use picowal.Users.Card.{User, card_header, build_user_card}
use picowal.Users.State.{
  AuthEnv, SessionSlot, Auth, flag_admin, flag_must_change, pack_key, user_key, schema_key,
}
use picowal.Users.Access.{SchemaField, string_field, seed_schema, seed_schema_public}
use picowal.Users.Reference.{
  user_fields, days_fields, countries_fields, currencies_fields, days, countries, currencies,
}

-- A card of a name and its abbreviation.
unfoldable pub name_card : List ℕ → List ℕ → List ℕ
name_card name abbr = card_header ++ (string_field 0 name ++ string_field 1 abbr)

-- The slots of the session table as they are cleared.
abbrev pub cleared_slot : SessionSlot
cleared_slot = record {
  token = replicate 16 0;
  user_card = 0;
  created_ms = 0;
  last_ms = 0;
  active = false;
}

-- The first user, with every right.
abbrev pub admin : List ℕ → List ℕ → User
admin hash salt = record {
  username = codes "admin";
  hash = hash;
  salt = salt;
  flags = bit_or flag_admin flag_must_change;
  fail_count = 0;
  read_packs = 0xFFFF ∷ [];
  write_packs = 0xFFFF ∷ [];
  delete_packs = 0xFFFF ∷ [];
}

module _ (env : AuthEnv) where
  -- The loop over the cards of a pack, from the i-th card on.
  unfoldable pub put_names : env.Store → ℕ → ℕ → List (List ℕ × List ℕ) → env.Store
  put_names store pack i [] = store
  put_names store pack i ((name, abbr) ∷ rest) =
      put_names (env.put store (pack_key pack i) (name_card name abbr)).1 pack (i + 1) rest

  -- A reference pack, if it has no schema card yet.
  unfoldable pub seed_reference :
      env.Store → ℕ → List ℕ → List SchemaField → List (List ℕ × List ℕ) → env.Store
  seed_reference store pack pack_name fields cards =
      let seeded = put_names (seed_schema_public env store pack pack_name fields).1 pack 0 cards in
      if env.exists store (schema_key pack) then store else seeded

  -- The schema of the users and the reference packs.
  unfoldable pub seed_packs : env.Store → env.Store
  seed_packs store =
      let s1 = (seed_schema env store 1 (codes "users") user_fields).1 in
      let s2 = seed_reference s1 2 (codes "days") days_fields days in
      let s3 = seed_reference s2 3 (codes "countries") countries_fields countries in
      seed_reference s3 4 (codes "currencies") currencies_fields currencies

  -- The first user, with the random bytes `salt`.
  unfoldable pub create_admin : env.Store → List ℕ → env.Store
  create_admin store salt =
      elim (build_user_card 256 (admin (env.sha256 (salt ++ codes "admin")) salt)) [
        | none ↦ store
        | some card ↦ (env.put store (user_key 0) card).1
      ]

  -- The cards and the session table.
  unfoldable pub user_auth_init : env.Store → List ℕ → Auth env
  user_auth_init store salt =
      let seeded = seed_packs store in
      record {
        store = elim (env.get_copy seeded (user_key 0) 512) [
          | some _ ↦ seeded
          | none ↦ create_admin seeded salt
        ];
        sessions = replicate 8 cleared_slot;
      }
