-- ===== src/Users/Access.antt =====
-- Schema cards in pack 0 and the access checks of src/user_auth.c. A C string is the list of its
-- bytes without the 0; the fields given are as many as `field_count`, and fewer than 256.
pub mod Public
use Prim.Native.Nat.{bit_and}
use mathlib.Core.Bool.{not}
use picowal.Prelude.{
  ℕ, zero, suc, ◌+◌, ◌*◌, ◌%◌, ◌^◌, Bool, true, false, ◌&&◌, ◌||◌, Option, none, some, List, [],
  ◌∷◌, ◌++◌, length, take, drop, ltb, leb, ◌==◌, if◌then◌else◌,
}
use picowal.Users.Card.{card_header, fit, fit_all, first_byte}
use picowal.Users.State.{AuthEnv, UserSession, schema_key, flag_admin}

-- schema_field_t
pub record SchemaField : Type 0 where
  pub ord : ℕ
  pub type : ℕ
  pub maxlen : ℕ
  pub name : List ℕ

-- A string behind its length; `strlen` is kept in a byte.
unfoldable pub string_field : ℕ → List ℕ → List ℕ
string_field ord s = let n = length s % 256 in ord ∷ ((1 + n) % 256) ∷ n ∷ take n s

unfoldable pub field_defs : List SchemaField → List ℕ
field_defs [] = []
field_defs (f ∷ fs) = (f.ord % 32) ∷ f.type ∷ f.maxlen ∷ field_defs fs

unfoldable pub names_total : List SchemaField → ℕ
names_total [] = 0
names_total (f ∷ fs) = (length f.name + 1 + names_total fs) % 2 ^ 16

unfoldable pub field_names : List SchemaField → List ℕ
field_names [] = []
field_names (f ∷ fs) = take (length f.name % 256) f.name ++ (0 ∷ field_names fs)

-- The module's name, left out where it does not fit.
unfoldable pub add_module : ℕ → List ℕ → List ℕ → List ℕ
add_module buf_size [] buf = buf
add_module buf_size (c ∷ cs) buf = elim (fit buf_size (string_field 4 (c ∷ cs)) buf) [
  | none ↦ buf
  | some buf' ↦ buf'
]

unfoldable pub add_names : ℕ → List SchemaField → List ℕ → Option (List ℕ)
add_names buf_size fields buf =
    let total = names_total fields in
    if ltb buf_size (length buf + 2 + total) || ltb 255 total
    then none
    else some (buf ++ (5 ∷ (total % 256) ∷ field_names fields))

-- The parts before the module's name.
unfoldable pub schema_parts : List ℕ → List SchemaField → ℕ → List (List ℕ)
schema_parts pack_name fields flags =
    card_header
    ∷ string_field 0 pack_name
    ∷ (1 ∷ 1 ∷ length fields ∷ [])
    ∷ (2 ∷ (3 * length fields % 256) ∷ field_defs fields)
    ∷ (3 ∷ 1 ∷ flags ∷ [])
    ∷ []

-- The empty `module` is the null pointer, too; `none` is the length 0.
unfoldable pub build_schema_card_full : ℕ → List ℕ → List SchemaField → ℕ → List ℕ → Option (List ℕ)
build_schema_card_full buf_size pack_name fields flags module_name =
    elim (fit_all buf_size (schema_parts pack_name fields flags) []) [
      | none ↦ none
      | some buf ↦ add_names buf_size fields (add_module buf_size module_name buf)
    ]

unfoldable pub build_schema_card_ex : ℕ → List ℕ → List SchemaField → ℕ → Option (List ℕ)
build_schema_card_ex buf_size pack_name fields flags =
    build_schema_card_full buf_size pack_name fields flags []

unfoldable pub build_schema_card : ℕ → List ℕ → List SchemaField → Option (List ℕ)
build_schema_card buf_size pack_name fields = build_schema_card_ex buf_size pack_name fields 0

-- "Reference"
abbrev pub reference_module : List ℕ
reference_module = 82 ∷ 101 ∷ 102 ∷ 101 ∷ 114 ∷ 101 ∷ 110 ∷ 99 ∷ 101 ∷ []

-- `list[i] == 0xFFFF || list[i] == pack` for one of them
unfoldable pub pack_in_list : List ℕ → ℕ → Bool
pack_in_list [] pack = false
pack_in_list (p ∷ ps) pack = (p == 0xFFFF) || (p == pack) || pack_in_list ps pack

-- The loop over the fields of a schema card: the public-read bit of field 3.
unfoldable pub public_loop : ℕ → List ℕ → Bool
public_loop zero rest = false
public_loop (suc fuel) [] = false
public_loop (suc fuel) (o ∷ []) = false
public_loop (suc fuel) (o ∷ flen ∷ rest) =
    let later = public_loop fuel (drop flen rest) in
    if ltb (length rest) flen
    then false
    else if (o % 32 == 3) && leb 1 flen
    then not (bit_and (first_byte flen rest) 1 == 0)
    else later

unfoldable pub public_card : List ℕ → Bool
public_card [] = false
public_card (m ∷ []) = false
public_card (m ∷ m' ∷ []) = false
public_card (m ∷ m' ∷ v ∷ []) = false
public_card (m ∷ m' ∷ v ∷ v' ∷ rest) =
    if (m == 0x7D) && (m' == 0xCA) then public_loop (length rest) rest else false

module _ (env : AuthEnv) where
  -- A card that is built is put at the pack's key in pack 0.
  unfoldable pub put_schema : env.Store → ℕ → Option (List ℕ) → Bool × env.Store
  put_schema store pack_ord none = (false, store)
  put_schema store pack_ord (some card) = env.put store (schema_key pack_ord) card

  unfoldable pub seed_schema : env.Store → ℕ → List ℕ → List SchemaField → Bool × env.Store
  seed_schema store pack_ord pack_name fields =
      put_schema store pack_ord (build_schema_card 256 pack_name fields)

  unfoldable pub seed_schema_public : env.Store → ℕ → List ℕ → List SchemaField → Bool × env.Store
  seed_schema_public store pack_ord pack_name fields =
      put_schema store pack_ord (build_schema_card_full 256 pack_name fields 1 reference_module)

  unfoldable pub user_auth_seed_schema :
      env.Store → ℕ → List ℕ → List SchemaField → Bool × env.Store
  user_auth_seed_schema store pack_ord pack_name fields =
      seed_schema store pack_ord pack_name fields

  unfoldable pub user_auth_seed_schema_module :
      env.Store → ℕ → List ℕ → List SchemaField → List ℕ → Bool × env.Store
  user_auth_seed_schema_module store pack_ord pack_name fields module_name =
      put_schema store pack_ord (build_schema_card_full 256 pack_name fields 0 module_name)

  -- The card is read into 128 bytes.
  unfoldable pub pack_is_public_read : env.Store → ℕ → Bool
  pack_is_public_read store pack = elim (env.get_copy store (schema_key pack) 128) [
    | none ↦ false
    | some card ↦ public_card card
  ]

  unfoldable pub user_auth_can_read : env.Store → UserSession → ℕ → Bool
  user_auth_can_read store s pack =
      if pack_in_list s.read_packs pack then true else pack_is_public_read store pack

unfoldable pub user_auth_can_write : UserSession → ℕ → Bool
user_auth_can_write s pack = pack_in_list s.write_packs pack

unfoldable pub user_auth_can_delete : UserSession → ℕ → Bool
user_auth_can_delete s pack = pack_in_list s.delete_packs pack

unfoldable pub user_auth_is_admin : UserSession → Bool
user_auth_is_admin s = not (bit_and s.flags flag_admin == 0)
