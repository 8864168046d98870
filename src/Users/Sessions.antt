-- ===== src/Users/Sessions.antt =====
-- The sessions of src/user_auth.c: what a login does to them.
use Prim.Native.Nat.{bit_and}
use mathlib.Core.Bool.{not}
use picowal.Prelude.{
  ℕ, ◌≡◌, refl, ap, ◌∙◌, ◌⊎◌, ◌||◌, Option, none, some, List, ◌++◌, arith, length, ltb, ◌==◌,
  if◌then◌else◌, Bool-cases, Option-cases, inl, inr,
}
use picowal.Users.Card.{User}
use picowal.Users.State.{
  AuthEnv, Auth, user_max_name, user_max_pass, flag_locked, same_bytes, same_bytes-eq,
}
use picowal.Users.Login.{failed_login, find_user_by_name, store_user, open_session, user_auth_login}

module _ (env : AuthEnv) (s : Auth env) (name password token : List ℕ) (created last : ℕ) where
  -- The card with the failures cleared, if it has some.
  abbrev pub cleared : ℕ → User → env.Store
  cleared card_id user =
      if ltb 0 user.fail_count
      then store_user env s.store card_id (record user { fail_count = 0 })
      else s.store

  abbrev login : Option ℕ × Auth env
  login = user_auth_login env s name password token created last

  -- The login of a user that the name finds, who is not locked and has this password.
  pub record IsOpened : Type 0 where
    pub card_id : ℕ
    pub user : User
    pub found : find_user_by_name env s.store name ≡ some (card_id, user)
    pub unlocked : bit_and user.flags flag_locked ≡ 0
    pub matches : env.sha256 (user.salt ++ password) ≡ user.hash
    pub result : login ≡ (
      some card_id,
      open_session env (record s { store = cleared card_id user }) card_id token created last,
    )

  -- A refused login gives -1 and leaves the sessions alone.
  pub record IsRefused : Type 0 where
    pub no_card : login.0 ≡ none
    pub same_sessions : login.1.sessions ≡ s.sessions

  refused : (s' : Auth env) → login ≡ (none, s') → s'.sessions ≡ s.sessions → IsRefused
  refused s' e same = record {
    no_card = ap (λ r. r.0) e;
    same_sessions = ap (λ r. r.1.sessions) e ∙ same;
  }

  -- A login either is refused, and then leaves the sessions as they are, or the name has a user who
  -- is not locked and whose hash is that of the password, and then opens a session for its card.
  pub user_auth_login-outcome : IsRefused ⊎ IsOpened
  unfolding user_auth_login
  user_auth_login-outcome =
      let n = (length name == 0) || ltb user_max_name (length name) in
      let p = (length password == 0) || ltb user_max_pass (length password) in
      elim (Option-cases (find_user_by_name env s.store name)) [
        | inl e ↦ inl (refused s (rw (e, user_auth_login) refl) refl)
        | inr (r, e) ↦
            let card_id = r.0 in
            let u = r.1 in
            let locked = not (bit_and u.flags flag_locked == 0) in
            let good = same_bytes (env.sha256 (u.salt ++ password)) u.hash in
            elim (Bool-cases n) [
              | inl f ↦ inl (refused s (rw (e, user_auth_login) (rw f refl)) refl)
              | inr f ↦ elim (Bool-cases p) [
                | inl g ↦ inl (refused s (rw (e, user_auth_login) (rw f (rw g refl))) refl)
                | inr g ↦ elim (Bool-cases locked) [
                  | inl l ↦ inl (refused s (rw (e, user_auth_login) (rw f (rw g (rw l refl)))) refl)
                  | inr l ↦ elim (Bool-cases good) [
                    | inr h ↦
                        let s' : Auth env = record s {
                          store = store_user env s.store card_id (failed_login u);
                        } in
                        inl (
                          refused s' (rw (e, user_auth_login) (rw f (rw g (rw l (rw h refl)))))
                            refl)
                    | inl h ↦ inr (record {
                      card_id = card_id;
                      user = u;
                      found = e;
                      unlocked = ground arith;
                      matches = same_bytes-eq (env.sha256 (u.salt ++ password)) u.hash h;
                      result = rw (e, user_auth_login) (rw f (rw g (rw l (rw h refl))));
                    })
                  ]
                ]
              ]
            ]
      ]
