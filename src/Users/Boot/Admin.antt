-- ===== src/Users/Boot/Admin.antt =====
-- The first user after `user_auth_init` of src/user_auth.c.
use Prim.Native.Nat.{bit_and}
use mathlib.Core.Bool.{not}
use picowal.Prelude.{
  ℕ, ◌≡◌, refl, sym, ap, ◌∙◌, true, false, none, some, List, [], ◌∷◌, ◌++◌, arith, length, codes,
  ltb, ◌==◌, ◌||◌, replicate,
}
use picowal.Users.Card.{User, build_user_card, parse_user_card}
use picowal.Users.Card.Rounds.{IsUser}
use picowal.Users.Card.Roundtrip.{card_size, parse_user_card-build}
use picowal.Users.State.{
  AuthEnv, Auth, pack_key, user_key, user_max_name, user_max_pass, flag_locked, same_bytes,
  same_bytes_self,
}
use picowal.Users.Login.{user_at, user_loop, user_keys, find_user_by_name, user_auth_login}
use picowal.Users.Known.{user_loop-hit, user_at-some}
use picowal.Users.Boot.{admin, seed_packs, create_admin, user_auth_init, cleared_slot}

init_new :
    (env : AuthEnv) (store : env.Store) (salt : List ℕ)
    → env.get_copy (seed_packs env store) (user_key 0) 512 ≡ none
    → user_auth_init env store salt ≡ record {
      store = create_admin env (seed_packs env store) salt;
      sessions = replicate 8 cleared_slot;
    }
unfolding user_auth_init
init_new env store salt e = rw (e, user_auth_init) refl

login_succeeds :
    (env : AuthEnv) (s : Auth env) (name password token : List ℕ) (created last card_id : ℕ)
    (u : User)
    → find_user_by_name env s.store name ≡ some (card_id, u)
    → ((length name == 0) || ltb user_max_name (length name)) ≡ false
    → ((length password == 0) || ltb user_max_pass (length password)) ≡ false
    → not (bit_and u.flags flag_locked == 0) ≡ false
    → env.sha256 (u.salt ++ password) ≡ u.hash
    → (user_auth_login env s name password token created last).0 ≡ some card_id
unfolding user_auth_login
login_succeeds env s name password token created last card_id u e f g l h =
    let good : same_bytes (env.sha256 (u.salt ++ password)) u.hash ≡ true =
      ap (λ x. same_bytes x u.hash) h ∙ same_bytes_self u.hash in
    rw (e, user_auth_login) (rw f (rw g (rw l (rw good refl))))

admin-IsUser : (hash salt : List ℕ) → length hash ≡ 32 → length salt ≡ 16 → IsUser (admin hash salt)
admin-IsUser hash salt h s = record {
  username_in = omega arith;
  hash_in = h;
  salt_in = s;
  read_in = omega arith;
  write_in = omega arith;
  delete_in = omega arith;
  read_words = (omega arith, tt);
  write_words = (omega arith, tt);
  delete_words = (omega arith, tt);
}

admin-size : (hash salt : List ℕ) → card_size (admin hash salt) ≡ 85
unfolding card_size
admin-size hash salt = omega arith

create_admin-eq :
    (env : AuthEnv) (store : env.Store) (salt card : List ℕ)
    → build_user_card 256 (admin (env.sha256 (salt ++ codes "admin")) salt) ≡ some card
    → create_admin env store salt ≡ (env.put store (user_key 0) card).1
unfolding create_admin
create_admin-eq env store salt card e = rw (e, create_admin) refl

-- On a store where, once the schemas and the reference packs are seeded, there is no card 0 and the
-- put of the first user's card is read back and gives the users' range its key alone: after the start
-- the user "admin" can log in with the password "admin" and has card 0. The hash has 32 bytes.
pub user_auth_login-init :
    (env : AuthEnv) (store : env.Store) (salt card token : List ℕ) (created last : ℕ)
    → length salt ≡ 16
    → length (env.sha256 (salt ++ codes "admin")) ≡ 32
    → env.get_copy (seed_packs env store) (user_key 0) 512 ≡ none
    → build_user_card 256 (admin (env.sha256 (salt ++ codes "admin")) salt) ≡ some card
    → env.get_copy (env.put (seed_packs env store) (user_key 0) card).1 (user_key 0) 512 ≡ some card
    → user_keys env (env.put (seed_packs env store) (user_key 0) card).1 ≡ user_key 0 ∷ []
    → (user_auth_login env
        (user_auth_init env store salt)
        (codes "admin")
        (codes "admin")
        token
        created
        last).0
      ≡ some 0
unfolding pack_key find_user_by_name
user_auth_login-init env store salt card token created last n hashed missing built back keys =
    let hash = env.sha256 (salt ++ codes "admin") in
    let u = admin hash salt in
    let seeded = seed_packs env store in
    let (card', build, size, parse) =
      parse_user_card-build 256 u (admin-IsUser hash salt hashed n)
        (omega (arith, admin-size hash salt)) in
    let q : some card' ≡ some card = sym build ∙ built in
    let same : card' ≡ card = cc q in
    let store' = (env.put seeded (user_key 0) card).1 in
    let at : user_at env store' (user_key 0) ≡ some u =
      user_at-some env store' (user_key 0) card back ∙ ap parse_user_card (sym same) ∙ parse in
    let found : find_user_by_name env store' (codes "admin") ≡ some (0, u) =
      ap (λ ks. user_loop env store' ks (codes "admin")) keys
      ∙ user_loop-hit env store' (user_key 0) [] (codes "admin") u at
          (same_bytes_self (codes "admin")) in
    let after : user_auth_init env store salt
        ≡ record { store = store'; sessions = replicate 8 cleared_slot } =
      init_new env store salt missing
      ∙ ap (λ t. record { store = t; sessions = replicate 8 cleared_slot })
          (create_admin-eq env seeded salt card built) in
    ap (λ a. (user_auth_login env a (codes "admin") (codes "admin") token created last).0) after
    ∙ login_succeeds env (record { store = store'; sessions = replicate 8 cleared_slot })
        (codes "admin") (codes "admin") token created last 0 u found refl refl refl refl
