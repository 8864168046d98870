-- ===== src/Users/Tokens.antt =====
-- A token of src/user_auth.c from the login that gives it out to its logout or its expiry.
use picowal.Prelude.{
  ℕ, ◌+◌, ◌-◌, ◌%◌, ◌^◌, ◌<◌, ◌≤◌, ◌≡◌, ◌⊎◌, refl, sym, ap, ◌∙◌, true, false, none, some, List,
  arith, length, set, ltb, Bool-cases, inl, inr, set-set, get_or-set_self, take,
}
use picowal.Users.Card.{User, parse_user_card}
use picowal.Users.Card.Rounds.{IsUser}
use picowal.Users.Card.Roundtrip.{card_size}
use picowal.Users.State.{AuthEnv, Auth, SessionSlot, UserSession, session_timeout_ms, user_key}
use picowal.Users.Laws.{InPack, IsSaved}
use picowal.Users.Login.{
  pick_slot, uint32_max, find_session, blank_slot, slot_at, deactivate, open_session,
  find_user_by_name, user_keys, user_auth_login, user_auth_logout, user_auth_check,
}
use picowal.Users.Known.{IsKnown, IsKnown-user_at, saved-parse, store_user-eq}
use picowal.Users.Table.{find_session-set, find_session-inactive, pick_slot-lt}
use picowal.Users.Sessions.{cleared, user_auth_login-outcome}

-- The session that a check gives out.
abbrev pub session_of : ℕ → User → UserSession
session_of card_id u = record {
  user_card = card_id;
  flags = u.flags;
  read_packs = take 20 u.read_packs;
  write_packs = take 20 u.write_packs;
  delete_packs = take 20 u.delete_packs;
}

-- The milliseconds between two readings of the 32-bit clock.
abbrev pub elapsed : ℕ → ℕ → ℕ
elapsed now last = (now + (2 ^ 32 - last)) % 2 ^ 32

module _ (env : AuthEnv) (s : Auth env) (token : List ℕ) (now now' : ℕ) where
  check_unknown :
      find_session s.sessions token 0 ≡ none → user_auth_check env s token now now' ≡ (none, s)
  unfolding user_auth_check
  check_unknown e = rw (e, user_auth_check) refl

  check_expired :
      (i : ℕ) (slot : SessionSlot)
      → find_session s.sessions token 0 ≡ some i
      → slot_at s.sessions i ≡ slot
      → session_timeout_ms < elapsed now slot.last_ms
      → user_auth_check env s token now now'
        ≡ (none, record s { sessions = set s.sessions i (record slot { active = false }) })
  unfolding user_auth_check deactivate
  check_expired i slot e f h =
      let late : ltb session_timeout_ms (elapsed now slot.last_ms) ≡ true = ground arith in
      rw (e, user_auth_check) (rw f (rw late refl))

  check_alive :
      (i : ℕ) (card : List ℕ) (u : User)
      → find_session s.sessions token 0 ≡ some i
      → elapsed now (slot_at s.sessions i).last_ms ≤ session_timeout_ms
      → env.get_copy s.store (user_key (slot_at s.sessions i).user_card) 512 ≡ some card
      → parse_user_card card ≡ some u
      → (user_auth_check env s token now now').0
        ≡ some (session_of (slot_at s.sessions i).user_card u)
  unfolding user_auth_check
  check_alive i card u e h g p =
      let alive : ltb session_timeout_ms (elapsed now (slot_at s.sessions i).last_ms) ≡ false =
        ground arith in
      rw (e, user_auth_check) (rw alive (rw g (rw p refl)))

  logout_known :
      (i : ℕ)
      → find_session s.sessions token 0 ≡ some i
      → user_auth_logout env s token ≡ record s {
        sessions = set s.sessions i (record (slot_at s.sessions i) { active = false });
      }
  unfolding user_auth_logout deactivate
  logout_known i e = rw (e, user_auth_logout) refl

pub no_failures-IsUser : (u : User) → IsUser u → IsUser (record u { fail_count = 0 })
no_failures-IsUser u i = record {
  username_in = i.username_in;
  hash_in = i.hash_in;
  salt_in = i.salt_in;
  read_in = i.read_in;
  write_in = i.write_in;
  delete_in = i.delete_in;
  read_words = i.read_words;
  write_words = i.write_words;
  delete_words = i.delete_words;
}

pub no_failures-size : (u : User) → card_size (record u { fail_count = 0 }) ≡ card_size u
unfolding card_size
no_failures-size u = refl

abbrev slot_of : ℕ → List ℕ → ℕ → ℕ → SessionSlot
slot_of card_id token created last = record {
  token = token;
  user_card = card_id;
  created_ms = created;
  last_ms = last;
  active = true;
}

module _ {env : AuthEnv} (s : Auth env) (card_id : ℕ) (u : User) (password token : List ℕ)
    (created last : ℕ) (found : find_user_by_name env s.store u.username ≡ some (card_id, u))
    (fresh : find_session s.sessions token 0 ≡ none) (room : 0 < length s.sessions)
    (logged : (user_auth_login env s u.username password token created last).0 ≡ some card_id) where
  abbrev logged_in : Auth env
  logged_in = (user_auth_login env s u.username password token created last).1

  abbrev store1 : env.Store
  store1 = cleared env s u.username password token created last card_id u

  abbrev slot1 : ℕ
  slot1 = pick_slot s.sessions 0 uint32_max 0

  abbrev sessions1 : List SessionSlot
  sessions1 = set s.sessions slot1 (slot_of card_id token created last)

  -- The state after the login.
  logged_in-eq : logged_in ≡ record { store = store1; sessions = sessions1 }
  unfolding open_session
  logged_in-eq = elim (user_auth_login-outcome env s u.username password token created last) [
    | inl r ↦ let q : none ≡ some card_id = sym r.no_card ∙ logged in absurd (cc q)
    | inr o ↦
        let q : some (o.card_id, o.user) ≡ some (card_id, u) = sym o.found ∙ found in
        let same : (o.card_id, o.user) ≡ (card_id, u) = cc q in
        ap (λ r. r.1) o.result
        ∙ ap
            (λ (r : ℕ × User).
              open_session env
                (record s { store = cleared env s u.username password token created last r.0 r.1 })
                r.0 token created last)
            same
  ]

  slot1-lt : slot1 < length s.sessions
  slot1-lt = omega (arith, pick_slot-lt s.sessions 0 uint32_max 0 (omega arith))

  found1 : find_session sessions1 token 0 ≡ some slot1
  found1 =
      find_session-set s.sessions token slot1 0 (slot_of card_id token created last) fresh slot1-lt
        refl refl
      ∙ ap some (omega arith)

  slot_at1 : slot_at sessions1 slot1 ≡ slot_of card_id token created last
  slot_at1 =
      get_or-set_self s.sessions slot1 (slot_of card_id token created last) blank_slot slot1-lt

  -- The card of the user is there, with the rights it had.
  store1-card :
      IsKnown env s.store card_id u
      → InPack (user_keys env s.store)
      → (u.fail_count ≡ 0) ⊎ IsSaved env s.store card_id (record u { fail_count = 0 })
      → (card : List ℕ) × (u' : User) × (env.get_copy store1 (user_key card_id) 512 ≡ some card)
        × (parse_user_card card ≡ some u')
        × (session_of card_id u' ≡ session_of card_id u)
  store1-card known in_pack kept = elim (Bool-cases (ltb 0 u.fail_count)) [
    | inl some_failures ↦ elim kept [
      | inl none_failed ↦ absurd (ground arith)
      | inr saved ↦
          let u' : User = record u { fail_count = 0 } in
          let fits : card_size u' ≤ 256 = omega (arith, no_failures-size u, known.fits) in
          let e : store1 ≡ (env.put s.store (user_key card_id) saved.card).1 =
            rw some_failures refl ∙ store_user-eq s.store card_id u' saved in
          (
            saved.card,
            u',
            ap (λ t. env.get_copy t (user_key card_id) 512) e ∙ saved.back,
            saved-parse s.store card_id u' saved (no_failures-IsUser u known.user) fits,
            refl,
          )
    ]
    | inr no_failures ↦
        let e : store1 ≡ s.store = rw no_failures refl in
        let (card, get, parse) = IsKnown-user_at s.store card_id u in_pack known in
        (card, u, ap (λ t. env.get_copy t (user_key card_id) 512) e ∙ get, parse, refl)
  ]

  abbrev s1 : Auth env
  s1 = record { store = store1; sessions = sessions1 }

  gone :
      find_session
        (set sessions1 slot1 (record (slot_at sessions1 slot1) { active = false }))
        token
        0
      ≡ none
  gone =
      let slot : SessionSlot = record (slot_at sessions1 slot1) { active = false } in
      ap (λ ss. find_session ss token 0)
        (set-set s.sessions slot1 (slot_of card_id token created last) slot)
      ∙ find_session-inactive s.sessions token slot1 0 slot fresh refl

  -- After a login of a user that fits a card of 256 bytes and that the name finds among keys of
  -- pack 1, with a token that was not in use, within an hour of its last use on the 32-bit clock:
  -- the check of the token gives the session of the card, with the first 20 packs of each list of
  -- rights of the user. If the user had failures, the put of the card without them is to be read
  -- back and to leave the other cards and the keys of the users.
  pub user_auth_check-login :
      (now now' : ℕ)
      → IsKnown env s.store card_id u
      → InPack (user_keys env s.store)
      → (u.fail_count ≡ 0) ⊎ IsSaved env s.store card_id (record u { fail_count = 0 })
      → elapsed now last ≤ session_timeout_ms
      → (user_auth_check env logged_in token now now').0 ≡ some (session_of card_id u)
  user_auth_check-login now now' known in_pack kept h =
      let (card, u', get, parse, same) = store1-card known in_pack kept in
      let last_ms : (slot_at sessions1 slot1).last_ms ≡ last = ap (λ x. x.last_ms) slot_at1 in
      let id : (slot_at sessions1 slot1).user_card ≡ card_id = ap (λ x. x.user_card) slot_at1 in
      ap (λ t. (user_auth_check env t token now now').0) logged_in-eq
      ∙ check_alive env s1 token now now' slot1 card u' found1
          (omega (arith, ap (λ l. elapsed now l) last_ms, h))
          (ap (λ i. env.get_copy store1 (user_key i) 512) id ∙ get) parse
      ∙ ap (λ i. some (session_of i u')) id
      ∙ ap some same

  -- After a login of a user that the name finds, with a token that was not in use, and the logout of
  -- that token, the check of the token is refused.
  pub user_auth_check-logout :
      (now now' : ℕ)
      → (user_auth_check env (user_auth_logout env logged_in token) token now now').0 ≡ none
  user_auth_check-logout now now' =
      let left : Auth env = record s1 {
        sessions = set sessions1 slot1 (record (slot_at sessions1 slot1) { active = false });
      } in
      ap (λ t. (user_auth_check env (user_auth_logout env t token) token now now').0) logged_in-eq
      ∙ ap (λ t. (user_auth_check env t token now now').0)
          (logout_known env s1 token now now' slot1 found1)
      ∙ ap (λ r. r.0) (check_unknown env left token now now' gone)

  -- After a login of a user that the name finds, with a token that was not in use: a check at which
  -- the time since the last use, modulo 2^32 ms, is more than an hour is refused, and so is the next
  -- check, whatever its time is.
  pub user_auth_check_expired :
      (now now' later later' : ℕ)
      → session_timeout_ms < elapsed now last
      → ((user_auth_check env logged_in token now now').0 ≡ none)
        × ((user_auth_check env
              (user_auth_check env logged_in token now now').1
              token
              later
              later').0
            ≡ none)
  user_auth_check_expired now now' later later' h =
      let left : Auth env = record s1 {
        sessions = set sessions1 slot1 (record (slot_at sessions1 slot1) { active = false });
      } in
      let last_ms : (slot_at sessions1 slot1).last_ms ≡ last = ap (λ x. x.last_ms) slot_at1 in
      let e : user_auth_check env logged_in token now now' ≡ (none, left) =
        ap (λ t. user_auth_check env t token now now') logged_in-eq
        ∙ check_expired env s1 token now now' slot1 (slot_at sessions1 slot1) found1 refl
            (omega (arith, ap (λ l. elapsed now l) last_ms, h)) in
      (
        ap (λ r. r.0) e,
        ap (λ r. (user_auth_check env r.1 token later later').0) e
            ∙ ap (λ r. r.0) (check_unknown env left token later later' gone),
      )
