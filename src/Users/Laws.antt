-- ===== src/Users/Laws.antt =====
-- What the theorems on users ask of single calls of the store, for src/user_auth.c.
use picowal.Prelude.{ℕ, ◌/◌, ◌^◌, ◌≡◌, ◌≢◌, some, List, [], ◌∷◌}
use picowal.Users.Card.{User, build_user_card}
use picowal.Users.State.{AuthEnv, user_key}
use picowal.Users.Login.{user_keys}

-- Keys of pack 1
abbrev pub InPack : List ℕ → Type 0
InPack [] = Unit
InPack (k ∷ ks) = (k / 2 ^ 22 ≡ 1) × InPack ks

-- The one put of the user's card: it is read back, the other keys read as before, and the range of
-- the users has the same keys.
pub record IsSaved (env : AuthEnv) (store : env.Store) (card_id : ℕ) (u : User) : Type 0 where
  pub card : List ℕ
  pub built : build_user_card 256 u ≡ some card
  pub back :
      env.get_copy (env.put store (user_key card_id) card).1 (user_key card_id) 512 ≡ some card
  pub others :
      (k : ℕ)
      → user_key card_id ≢ k
      → env.get_copy (env.put store (user_key card_id) card).1 k 512 ≡ env.get_copy store k 512
  pub same_users : user_keys env (env.put store (user_key card_id) card).1 ≡ user_keys env store
