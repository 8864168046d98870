-- ===== src/Users/State.antt =====
-- The session table of src/user_auth.c, and what the file takes from elsewhere: the store, and the
-- SHA-256 of mbedtls.
use picowal.Prelude.{
  ℕ, ◌+◌, ◌*◌, ◌%◌, ◌^◌, ◌≡◌, Bool, true, false, ◌&&◌, Option, List, [], ◌∷◌, refl, arith, ◌==◌,
}

-- `kv_put`, `kv_get_copy` with the room of its buffer, the keys of `kv_range`, `kv_exists`; and the
-- hash of the salt followed by the password.
pub record AuthEnv : Type 1 where
  pub Store : Type 0
  pub put : Store → ℕ → List ℕ → Bool × Store
  pub get_copy : Store → ℕ → ℕ → Option (List ℕ)
  pub range : Store → ℕ → ℕ → ℕ → List ℕ
  pub exists : Store → ℕ → Bool
  pub sha256 : List ℕ → List ℕ

-- session_slot_t
pub record SessionSlot : Type 0 where
  pub token : List ℕ
  pub user_card : ℕ
  pub created_ms : ℕ
  pub last_ms : ℕ
  pub active : Bool

-- user_session_t
pub record UserSession : Type 0 where
  pub user_card : ℕ
  pub flags : ℕ
  pub read_packs : List ℕ
  pub write_packs : List ℕ
  pub delete_packs : List ℕ

-- The store and g_sessions.
pub record Auth (env : AuthEnv) : Type 0 where
  pub store : env.Store
  pub sessions : List SessionSlot

abbrev pub user_max_name : ℕ
user_max_name = 31

abbrev pub user_max_pass : ℕ
user_max_pass = 31

abbrev pub session_timeout_ms : ℕ
session_timeout_ms = 3_600_000

abbrev pub flag_admin : ℕ
flag_admin = 1

abbrev pub flag_locked : ℕ
flag_locked = 2

abbrev pub flag_must_change : ℕ
flag_must_change = 4

-- `PACK_KEY(pack, card)`, and the keys of pack 1 and of pack 0
unfoldable pub pack_key : ℕ → ℕ → ℕ
pack_key pack card = pack * 2 ^ 22 % 2 ^ 32 + card % 2 ^ 22

abbrev pub user_key : ℕ → ℕ
user_key card = pack_key 1 card

abbrev pub schema_key : ℕ → ℕ
schema_key pack = pack_key 0 pack

abbrev pub user_mask : ℕ
user_mask = 0xFFC0_0000

-- Whether two stretches of bytes agree, as `memcmp` and the loops over `diff` find it.
unfoldable pub same_bytes : List ℕ → List ℕ → Bool
same_bytes [] [] = true
same_bytes [] (y ∷ ys) = false
same_bytes (x ∷ xs) [] = false
same_bytes (x ∷ xs) (y ∷ ys) = (x == y) && same_bytes xs ys

pub same_bytes-eq : (xs ys : List ℕ) → same_bytes xs ys ≡ true → xs ≡ ys
unfolding same_bytes
same_bytes-eq [] [] h = refl
same_bytes-eq [] (y ∷ ys) h = cc
same_bytes-eq (x ∷ xs) [] h = cc
same_bytes-eq (x ∷ xs) (y ∷ ys) h = ground (arith, same_bytes-eq xs ys)

pub same_bytes_self : (xs : List ℕ) → same_bytes xs xs ≡ true
unfolding same_bytes
same_bytes_self [] = refl
same_bytes_self (x ∷ xs) = ground (arith, same_bytes_self xs)
