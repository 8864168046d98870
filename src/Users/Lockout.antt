-- ===== src/Users/Lockout.antt =====
-- Repeated calls of `user_auth_login` of src/user_auth.c with wrong passwords.
use Prim.Native.Nat.{bit_and, bit_or}
use mathlib.Core.Bool.{not}
use native.Mathlib.Decide.{ℕ_discrete}
use picowal.Prelude.{
  ℕ, ◌+◌, ◌<◌, ◌≤◌, ◌≡◌, ◌≢◌, refl, sym, ap, ◌∙◌, Bool, true, false, ◌||◌, Option, none, some, List,
  zero, suc, [], ◌∷◌, ◌++◌, arith, length, ltb, ◌==◌, Bool-cases, inl, inr,
}
use picowal.Prelude.Bits.{all_below, all_below_sound}
use picowal.Users.Card.{User}
use picowal.Users.Card.Rounds.{IsUser}
use picowal.Users.Card.Roundtrip.{card_size}
use picowal.Users.State.{
  AuthEnv, Auth, user_max_name, user_max_pass, flag_locked, same_bytes, same_bytes-eq,
}
use picowal.Users.Laws.{InPack, IsSaved}
use picowal.Users.Login.{failed_login, find_user_by_name, store_user, user_auth_login, user_keys}
use picowal.Users.Known.{IsKnown, store_user-IsKnown, same_keys}

-- A call of login: the password, the random bytes of the token and the times.
pub record Attempt : Type 0 where
  pub password : List ℕ
  pub token : List ℕ
  pub created : ℕ
  pub last : ℕ

abbrev pub is_locked : User → Bool
is_locked u = not (bit_and u.flags flag_locked == 0)

lock_table : all_below 256 (λ f. not (bit_and (bit_or f 2) 2 == 0)) ≡ true
unfolding all_below
lock_table = refl

lock_bounds : all_below 256 (λ f. ltb (bit_or f 2) 256) ≡ true
unfolding all_below
lock_bounds = refl

module _ (env : AuthEnv) where
  abbrev pub try_login : Auth env → List ℕ → Attempt → Option ℕ × Auth env
  try_login s name a = user_auth_login env s name a.password a.token a.created a.last

  -- One call of login after the other.
  unfoldable pub attempts : Auth env → List ℕ → List Attempt → Auth env
  attempts s name [] = s
  attempts s name (a ∷ rest) = attempts (try_login s name a).1 name rest

  -- A password of an admissible length that is not the user's.
  abbrev pub IsWrong : User → Attempt → Type 0
  IsWrong u a =
      (0 < length a.password)
      × (length a.password ≤ user_max_pass)
      × (env.sha256 (u.salt ++ a.password) ≢ u.hash)

  abbrev pub AllWrong : User → List Attempt → Type 0
  AllWrong u [] = Unit
  AllWrong u (a ∷ rest) = IsWrong u a × AllWrong u rest

  -- A locked user is refused, whatever the password is.
  locked_refuses :
      (s : Auth env) (name : List ℕ) (card_id : ℕ) (u : User) (a : Attempt)
      → find_user_by_name env s.store name ≡ some (card_id, u)
      → is_locked u ≡ true
      → try_login s name a ≡ (none, s)
  unfolding user_auth_login
  locked_refuses s name card_id u a e locked =
      let n = (length name == 0) || ltb user_max_name (length name) in
      let p = (length a.password == 0) || ltb user_max_pass (length a.password) in
      elim (Bool-cases n) [
        | inl f ↦ rw (e, user_auth_login) (rw f refl)
        | inr f ↦ elim (Bool-cases p) [
          | inl g ↦ rw (e, user_auth_login) (rw f (rw g refl))
          | inr g ↦ rw (e, user_auth_login) (rw f (rw g (rw locked refl)))
        ]
      ]

  wrong_fails :
      (s : Auth env) (name : List ℕ) (card_id : ℕ) (u : User) (a : Attempt)
      → find_user_by_name env s.store name ≡ some (card_id, u)
      → 0 < length name
      → length name ≤ user_max_name
      → is_locked u ≡ false
      → IsWrong u a
      → try_login s name a
        ≡ (none, record s { store = store_user env s.store card_id (failed_login u) })
  unfolding user_auth_login
  wrong_fails s name card_id u a e n n' unlocked w =
      let f : ((length name == 0) || ltb user_max_name (length name)) ≡ false = ground arith in
      let g : ((length a.password == 0) || ltb user_max_pass (length a.password)) ≡ false =
        ground (arith, w.0, w.1) in
      let h : same_bytes (env.sha256 (u.salt ++ a.password)) u.hash ≡ false =
        elim (Bool-cases (same_bytes (env.sha256 (u.salt ++ a.password)) u.hash)) [
          | inl t ↦ absurd (w.2 (same_bytes-eq (env.sha256 (u.salt ++ a.password)) u.hash t))
          | inr t ↦ t
        ] in
      rw (e, user_auth_login) (rw f (rw g (rw unlocked (rw h refl))))

  locked_attempts :
      (s : Auth env) (card_id : ℕ) (u : User) (name : List ℕ) (tries : List Attempt)
      → find_user_by_name env s.store name ≡ some (card_id, u)
      → is_locked u ≡ true
      → attempts s name tries ≡ s
  unfolding attempts
  locked_attempts s card_id u name [] e locked = refl
  locked_attempts s card_id u name (a ∷ rest) e locked =
      ap (λ r. attempts r.1 name rest) (locked_refuses s name card_id u a e locked)
      ∙ locked_attempts s card_id u name rest e locked

  locked_later :
      (s : Auth env) (card_id : ℕ) (u : User) (tries : List Attempt) (later : Attempt)
      → find_user_by_name env s.store u.username ≡ some (card_id, u)
      → is_locked u ≡ true
      → (try_login (attempts s u.username tries) u.username later).0 ≡ none
  locked_later s card_id u tries later e locked =
      ap (λ t. (try_login t u.username later).0)
        (locked_attempts s card_id u u.username tries e locked)
      ∙ ap (λ r. r.0) (locked_refuses s u.username card_id u later e locked)

  failed_login-flags-lt : (u : User) → u.flags < 256 → (failed_login u).flags < 256
  unfolding failed_login
  failed_login-flags-lt u h = ground (arith, all_below_sound 256 _ lock_bounds u.flags h)

  failed_login-locked :
      (u : User) → u.flags < 256 → u.fail_count ≡ 9 → is_locked (failed_login u) ≡ true
  unfolding failed_login
  failed_login-locked u h e = ground (arith, all_below_sound 256 _ lock_table u.flags h)

  failed_login-same :
      (u : User) (tries : List Attempt) → AllWrong u tries → AllWrong (failed_login u) tries
  unfolding failed_login
  failed_login-same u [] w = w
  failed_login-same u (a ∷ rest) w = (w.0, failed_login-same u rest w.1)

  pub failed_login-IsUser : (u : User) → IsUser u → IsUser (failed_login u)
  unfolding failed_login
  failed_login-IsUser u i = record {
    username_in = i.username_in;
    hash_in = i.hash_in;
    salt_in = i.salt_in;
    read_in = i.read_in;
    write_in = i.write_in;
    delete_in = i.delete_in;
    read_words = i.read_words;
    write_words = i.write_words;
    delete_words = i.delete_words;
  }

  failed_login-name : (u : User) → (failed_login u).username ≡ u.username
  unfolding failed_login
  failed_login-name u = refl

  pub failed_login-size : (u : User) → card_size (failed_login u) ≡ card_size u
  unfolding failed_login card_size
  failed_login-size u = refl

  failed_login-count :
      (u : User) → u.fail_count < 10 → (failed_login u).fail_count ≡ u.fail_count + 1
  unfolding failed_login
  failed_login-count u h = omega arith

  -- The next `n` failed logins of the user are each saved in the store that the one before left.
  abbrev pub AllSaved : env.Store → ℕ → User → ℕ → Type 0
  AllSaved store card_id u zero = Unit
  AllSaved store card_id u (suc n) =
      IsSaved env store card_id (failed_login u)
      × AllSaved (store_user env store card_id (failed_login u)) card_id (failed_login u) n

  -- For a user that fits a card of 256 bytes, that the name, of an admissible length, finds among
  -- keys of pack 1, and that has fewer than ten failures: where the puts of the user's card with
  -- the failures up to the tenth are read back, and leave the other cards and the keys of the users
  -- as they are, each later login of the name is refused once wrong passwords have been tried that
  -- make ten with these failures.
  pub user_auth_login-locks :
      (s : Auth env) (card_id : ℕ) (u : User) (tries : List Attempt) (later : Attempt) (n : ℕ)
      → InPack (user_keys env s.store)
      → IsKnown env s.store card_id u
      → u.fail_count + n ≡ 10
      → AllSaved s.store card_id u n
      → 0 < length u.username
      → length u.username ≤ user_max_name
      → u.flags < 256
      → u.fail_count < 10
      → 10 ≤ u.fail_count + length tries
      → AllWrong u tries
      → (try_login (attempts s u.username tries) u.username later).0 ≡ none
  unfolding attempts
  user_auth_login-locks s card_id u [] later m in_pack known ten saved n n' small few enough w =
      absurd (omega arith)
  user_auth_login-locks s card_id u (a ∷ rest) later zero in_pack known ten saved n n' small few
        enough w =
      absurd (omega arith)
  user_auth_login-locks s card_id u (a ∷ rest) later (suc m) in_pack known ten saved n n' small few
        enough w =
      let u' = failed_login u in
      let s' : Auth env = record s { store = store_user env s.store card_id u' } in
      let fits : card_size u' ≤ 256 = omega (arith, failed_login-size u, known.fits) in
      let known' : IsKnown env s'.store card_id u' =
        store_user-IsKnown s.store card_id u u' (failed_login-name u)
          (failed_login-IsUser u known.user) fits in_pack saved.0 known.id_in known.found in
      let keys : user_keys env s'.store ≡ user_keys env s.store =
        same_keys s.store card_id u u' (failed_login-name u) (failed_login-IsUser u known.user) fits
          in_pack saved.0 in
      let in_pack' : InPack (user_keys env s'.store) = rw keys in_pack in
      elim (Bool-cases (is_locked u)) [
        | inl locked ↦ locked_later s card_id u (a ∷ rest) later known.found locked
        | inr unlocked ↦
            let step : try_login s u.username a ≡ (none, s') =
              wrong_fails s u.username card_id u a known.found n n' unlocked w.0 in
            let again : (try_login (attempts s' u'.username rest) u'.username later).0 ≡ none =
              elim (ℕ_discrete u.fail_count 9) [
                | yes e ↦
                    locked_later s' card_id u' rest later known'.found
                      (failed_login-locked u small e)
                | no ne ↦
                    user_auth_login-locks s' card_id u' rest later m in_pack' known'
                      (omega (arith, failed_login-count u few)) saved.1
                      (omega (arith, ap (length {A = ℕ}) (failed_login-name u)))
                      (omega (arith, ap (length {A = ℕ}) (failed_login-name u)))
                      (failed_login-flags-lt u small) (omega (arith, failed_login-count u few))
                      (omega (arith, failed_login-count u few)) (failed_login-same u rest w.1)
              ] in
            ap (λ r. (try_login (attempts r.1 u.username rest) u.username later).0) step
            ∙ ap (λ name. (try_login (attempts s' name rest) name later).0)
                (sym (failed_login-name u))
            ∙ again
      ]
