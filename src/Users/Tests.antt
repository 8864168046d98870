-- ===== src/Users/Tests.antt =====
-- Runs of src/user_auth.c on a list of cards.
mod ListStore
mod Alice
use Prim.Native.Nat.{bit_and, bit_or}
use picowal.Prelude.{
  ℕ, zero, suc, ◌+◌, ◌-◌, ◌*◌, ◌/◌, ◌%◌, ◌^◌, ◌<◌, ◌≤◌, ◌≡◌, ◌≢◌, refl, sym, ap, ◌∙◌, Bool, true,
  false, ◌||◌, Option, none, some, List, [], ◌∷◌, ◌++◌, arith, length, take, get_or, if◌then◌else◌,
  replicate, codes, inr, ltb, leb, ◌==◌, ◌⊎◌,
}
use ListStore.{list_store, list_store-IsSaved, list_keys-InPack}
use Alice.{salt, alice, alice-IsUser, alice-size, alice-IsKnown, cards, auth}
use picowal.Users.Card.{
  User, build_user_card, fit_all, fit, card_fields, plain_field, prefixed_field, pack_bytes,
  parse_user_card, parse_loop, parse_field, take_field, counted, first_byte, complete, pack_words,
}
use picowal.Users.Card.Roundtrip.{card_size, parse_user_card-build}
use picowal.Users.State.{
  AuthEnv, Auth, SessionSlot, UserSession, schema_key, pack_key, user_key, user_mask, same_bytes,
}
use picowal.Users.Login.{
  failed_login, find_user_by_name, user_loop, user_at, store_user, user_auth_login,
  user_auth_logout, user_auth_check, find_session, blank_slot,
}
use picowal.Users.Lockout.{
  Attempt, attempts, try_login, failed_login-IsUser, failed_login-size, user_auth_login-locks,
}
use picowal.Users.Sessions.{IsRefused, IsOpened, user_auth_login-outcome}
use picowal.Users.Tokens.{
  session_of, no_failures-IsUser, no_failures-size, user_auth_check-login, user_auth_check-logout,
  user_auth_check_expired,
}
use picowal.Users.Access.{
  SchemaField, build_schema_card, build_schema_card_ex, build_schema_card_full, schema_parts,
  string_field, field_defs, field_names, names_total, add_module, add_names, reference_module,
  seed_schema_public, user_auth_seed_schema, user_auth_can_read, pack_in_list, seed_schema,
  put_schema,
}
use picowal.Users.Access.Public.{user_auth_can_read-seeded}
use picowal.Users.Cookie.{user_auth_parse_cookie, user_auth_format_token}
use picowal.Users.Cookie.Token.{Bytes, user_auth_parse_cookie-format}
use picowal.Users.Reference.{days_fields}
use picowal.Users.Boot.{admin, seed_packs, seed_reference, user_auth_init}
use picowal.Users.Boot.Admin.{user_auth_login-init}
use picowal.Users.Laws.{IsSaved}
use picowal.Users.OnFlash.{on_flash, user_auth_can_read-on_flash}
use picowal.KvFlash.Record.{align4, encode}
use picowal.KvFlash.Record.Append.{footprint}
use picowal.KvFlash.Tests.Flash.{toy, toy-HwLaws, toy_compress, is_zeros}
use picowal.KvFlash.Tests.Put.{at, at-IsReady, empty-IsTable}
use picowal.Users.Known.{store_user-eq}

parse_user_card-build_example :
    (card : List ℕ) × (build_user_card 256 alice ≡ some card)
    × (length card ≡ card_size alice)
    × (parse_user_card card ≡ some alice)
parse_user_card-build_example = parse_user_card-build 256 alice alice-IsUser alice-size

abbrev token : List ℕ
token = replicate 15 200 ++ (9 ∷ [])

abbrev wrong : Attempt
wrong = record { password = codes "sesame"; token = token; created = 10; last = 11 }

abbrev right : Attempt
right = record { password = codes "secret"; token = token; created = 20; last = 21 }

differs : list_store.sha256 (salt ++ codes "sesame") ≢ alice.hash
differs = λ e. absurd (omega (arith, ap (λ (xs : List ℕ). get_or xs 18 0) e))

abbrev card_bytes : List ℕ
unfolding build_user_card fit_all fit card_fields plain_field prefixed_field pack_bytes
card_bytes = elim (build_user_card 256 alice) [ none ↦ [] | some card ↦ card ]

abbrev nine : User
nine = failed_login alice

abbrev ten : User
ten = failed_login nine

nine-size : card_size nine ≤ 256
nine-size = omega (arith, failed_login-size list_store alice, alice-size)

ten-size : card_size ten ≤ 256
ten-size = omega (arith, failed_login-size list_store nine, nine-size)

alice-there : list_store.get_copy cards (user_key 5) 512 ≡ some card_bytes
unfolding pack_key card_bytes
alice-there = refl

nine-IsSaved : IsSaved list_store cards 5 nine
nine-IsSaved =
    list_store-IsSaved cards 5 nine card_bytes (failed_login-IsUser list_store alice alice-IsUser)
      nine-size alice-there

ten-IsSaved : IsSaved list_store (store_user list_store cards 5 nine) 5 ten
ten-IsSaved =
    list_store-IsSaved (store_user list_store cards 5 nine) 5 ten nine-IsSaved.card
      (failed_login-IsUser list_store nine (failed_login-IsUser list_store alice alice-IsUser))
      ten-size
      (ap (λ t. list_store.get_copy t (user_key 5) 512) (store_user-eq cards 5 nine nine-IsSaved)
        ∙ nine-IsSaved.back)

none_failed-IsSaved : IsSaved list_store cards 5 (record alice { fail_count = 0 })
none_failed-IsSaved =
    list_store-IsSaved cards 5 (record alice { fail_count = 0 }) card_bytes
      (no_failures-IsUser alice alice-IsUser) (omega (arith, no_failures-size alice, alice-size))
      alice-there

user_auth_login-locks_example :
    (try_login list_store
      (attempts list_store auth (codes "alice") (wrong ∷ wrong ∷ []))
      (codes "alice")
      right).0
    ≡ none
user_auth_login-locks_example =
    user_auth_login-locks list_store auth 5 alice (wrong ∷ wrong ∷ []) right 2
      (list_keys-InPack cards) alice-IsKnown (omega arith) (nine-IsSaved, (ten-IsSaved, tt))
      (omega arith) (omega arith) (omega arith) (omega arith) (omega arith)
      ((omega arith, omega arith, differs), ((omega arith, omega arith, differs), tt))

user_auth_login-outcome_example :
    IsRefused list_store auth (codes "alice") (codes "secret") token 10 20
    ⊎ IsOpened list_store auth (codes "alice") (codes "secret") token 10 20
user_auth_login-outcome_example =
    user_auth_login-outcome list_store auth (codes "alice") (codes "secret") token 10 20

logged : (user_auth_login list_store auth (codes "alice") (codes "secret") token 10 20).0 ≡ some 5
unfolding user_auth_login find_user_by_name user_loop user_at build_user_card fit_all fit
    card_fields plain_field prefixed_field pack_bytes pack_key parse_user_card parse_loop
    parse_field take_field counted first_byte complete pack_words same_bytes
logged = refl

fresh : find_session auth.sessions token 0 ≡ none
unfolding find_session
fresh = refl

abbrev logged_in : Auth list_store
logged_in = (user_auth_login list_store auth (codes "alice") (codes "secret") token 10 20).1

user_auth_check-login_example :
    (user_auth_check list_store logged_in token 3_600_020 3_600_020).0 ≡ some (session_of 5 alice)
user_auth_check-login_example =
    user_auth_check-login auth 5 alice (codes "secret") token 10 20 alice-IsKnown.found fresh
      (omega arith) logged 3_600_020 3_600_020 alice-IsKnown (list_keys-InPack cards)
      (inr none_failed-IsSaved) (omega arith)

user_auth_check-logout_example :
    (user_auth_check list_store (user_auth_logout list_store logged_in token) token 30 30).0 ≡ none
user_auth_check-logout_example =
    user_auth_check-logout auth 5 alice (codes "secret") token 10 20 alice-IsKnown.found fresh
      (omega arith) logged 30 30

user_auth_check_expired_example :
    ((user_auth_check list_store logged_in token 3_600_021 3_600_021).0 ≡ none)
    × ((user_auth_check list_store
          (user_auth_check list_store logged_in token 3_600_021 3_600_021).1
          token
          3_600_022
          3_600_022).0
        ≡ none)
user_auth_check_expired_example =
    user_auth_check_expired auth 5 alice (codes "secret") token 10 20 alice-IsKnown.found fresh
      (omega arith) logged 3_600_021 3_600_021 3_600_022 3_600_022 (omega arith)

abbrev days_card : List ℕ
unfolding build_schema_card_full schema_parts string_field field_defs field_names names_total
    add_module add_names fit_all fit
days_card = elim (build_schema_card_full 256 (codes "days") days_fields 1 reference_module) [
  | none ↦ []
  | some card ↦ card
]

abbrev private_card : List ℕ
unfolding build_schema_card build_schema_card_ex build_schema_card_full schema_parts string_field
    field_defs field_names names_total add_module add_names fit_all fit
private_card = elim (build_schema_card 256 (codes "days") days_fields) [
  | none ↦ []
  | some card ↦ card
]

days_card-built :
    build_schema_card_full 256 (codes "days") days_fields 1 reference_module ≡ some days_card
unfolding build_schema_card_full schema_parts string_field field_defs field_names names_total
    add_module add_names fit_all fit
days_card-built = refl

private_card-built : build_schema_card 256 (codes "days") days_fields ≡ some private_card
unfolding build_schema_card build_schema_card_ex build_schema_card_full schema_parts string_field
    field_defs field_names names_total add_module add_names fit_all fit
private_card-built = refl

user_auth_can_read-seeded_example :
    (user_auth_can_read list_store
        (seed_schema_public list_store [] 2 (codes "days") days_fields).1
        (session_of 5 alice)
        2
      ≡ true)
    × (user_auth_can_read list_store
          (user_auth_seed_schema list_store [] 2 (codes "days") days_fields).1
          (session_of 5 alice)
          2
        ≡ pack_in_list (session_of 5 alice).read_packs 2)
unfolding days_card private_card pack_key
user_auth_can_read-seeded_example =
    user_auth_can_read-seeded list_store [] 2 (codes "days") days_fields days_card private_card
      (session_of 5 alice) days_card-built refl private_card-built refl

days_card-short : length days_card ≤ 128
unfolding days_card
days_card-short = omega arith

days-footprint : footprint (encode toy days_card 0) ≡ 92
unfolding days_card encode align4 toy_compress is_zeros
days-footprint = refl

user_auth_can_read-on_flash_example :
    user_auth_can_read
      (on_flash toy list_store.sha256)
      (seed_schema_public (on_flash toy list_store.sha256) (at 16) 2 (codes "days") days_fields).1
      (session_of 5 alice)
      2
    ≡ true
user_auth_can_read-on_flash_example =
    user_auth_can_read-on_flash toy-HwLaws list_store.sha256 (at 16) 2 (codes "days") days_fields
      days_card (session_of 5 alice) days_card-built days_card-short empty-IsTable (omega arith)
      (at-IsReady 16 _ (omega arith) (omega arith) (omega (arith, days-footprint)))
      (omega (arith, days-footprint))

replicate-Bytes : (n b : ℕ) (rest : List ℕ) → b < 256 → Bytes rest → Bytes (replicate n b ++ rest)
replicate-Bytes zero b rest h w = w
replicate-Bytes (suc n) b rest h w = (h, replicate-Bytes n b rest h w)

user_auth_parse_cookie-format_example :
    user_auth_parse_cookie
      (codes "Cookie: sid=" ++ (user_auth_format_token token ++ codes "; lang=en"))
    ≡ some token
user_auth_parse_cookie-format_example =
    user_auth_parse_cookie-format token (codes "; lang=en") refl
      (replicate-Bytes 15 200 (9 ∷ []) (omega arith) (omega arith, tt))

abbrev admin_card : List ℕ
unfolding build_user_card fit_all fit card_fields plain_field prefixed_field pack_bytes
admin_card = elim (build_user_card 256 (admin (list_store.sha256 (salt ++ codes "admin")) salt)) [
  | none ↦ []
  | some card ↦ card
]

-- The schema cards of the reference packs are there.
abbrev reference_cards : list_store.Store
unfolding pack_key
reference_cards = (schema_key 2, []) ∷ (schema_key 3, []) ∷ (schema_key 4, []) ∷ []

user_auth_login-init_example :
    (user_auth_login list_store
      (user_auth_init list_store reference_cards salt)
      (codes "admin")
      (codes "admin")
      token
      1
      2).0
    ≡ some 0
unfolding pack_key admin_card seed_packs seed_reference seed_schema put_schema build_schema_card
    build_schema_card_ex build_schema_card_full schema_parts string_field field_defs field_names
    names_total add_module add_names build_user_card fit_all fit card_fields plain_field
    prefixed_field pack_bytes reference_cards
user_auth_login-init_example =
    user_auth_login-init list_store reference_cards salt admin_card token 1 2 refl refl refl refl
      refl refl
