-- ===== src/Users/Login.antt =====
-- Users and sessions of src/user_auth.c: login, logout, the check of a token, and the users' cards.
-- The random bytes and the times of the clock that a call reads are its arguments.
use Prim.Native.Nat.{bit_and, bit_or}
use picowal.Prelude.{
  ℕ, ◌+◌, ◌-◌, ◌%◌, ◌^◌, Bool, true, false, ◌&&◌, ◌||◌, Option, none, some, List, [], ◌∷◌, ◌++◌,
  length, take, get_or, set, ltb, leb, ◌==◌, if◌then◌else◌,
}
use mathlib.Core.Bool.{not}
use picowal.Users.Card.{User, build_user_card, parse_user_card}
use picowal.Users.State.{
  AuthEnv, Auth, SessionSlot, UserSession, user_max_name, user_max_pass, session_timeout_ms,
  flag_locked, user_key, user_mask, same_bytes,
}

-- The first free slot from `i` on; without one, the oldest: `oldest_ms` and `oldest_slot` are those of
-- the slots before.
unfoldable pub pick_slot : List SessionSlot → ℕ → ℕ → ℕ → ℕ
pick_slot [] i oldest_ms oldest_slot = oldest_slot
pick_slot (s ∷ ss) i oldest_ms oldest_slot =
    let older = pick_slot ss (i + 1) s.created_ms i in
    let rest = pick_slot ss (i + 1) oldest_ms oldest_slot in
    if not s.active then i else if ltb s.created_ms oldest_ms then older else rest

abbrev pub uint32_max : ℕ
uint32_max = 0xFFFF_FFFF

-- The active slot that has the token.
unfoldable pub find_session : List SessionSlot → List ℕ → ℕ → Option ℕ
find_session [] token i = none
find_session (s ∷ ss) token i =
    let rest = find_session ss token (i + 1) in
    if s.active && same_bytes s.token token then some i else rest

abbrev pub blank_slot : SessionSlot
blank_slot = record { token = []; user_card = 0; created_ms = 0; last_ms = 0; active = false }

abbrev pub slot_at : List SessionSlot → ℕ → SessionSlot
slot_at sessions i = get_or sessions i blank_slot

unfoldable pub deactivate : List SessionSlot → ℕ → List SessionSlot
deactivate sessions i = set sessions i (record (slot_at sessions i) { active = false })

-- One more failure, and the lock at ten.
unfoldable pub failed_login : User → User
failed_login u =
    let fail_count = (u.fail_count + 1) % 256 in
    record u {
      fail_count = fail_count;
      flags = if leb 10 fail_count then bit_or u.flags flag_locked else u.flags;
    }

module _ (env : AuthEnv) where
  -- The user of the card at a key.
  unfoldable pub user_at : env.Store → ℕ → Option User
  user_at store k = elim (env.get_copy store k 512) [
    | none ↦ none
    | some card ↦ parse_user_card card
  ]

  -- The loop over the keys: the id and the user of this name.
  unfoldable pub user_loop : env.Store → List ℕ → List ℕ → Option (ℕ × User)
  user_loop store [] name = none
  user_loop store (k ∷ ks) name =
      let rest = user_loop store ks name in
      elim (user_at store k) [
        | none ↦ rest
        | some user ↦ if same_bytes user.username name then some (k % 2 ^ 22, user) else rest
      ]

  abbrev pub user_keys : env.Store → List ℕ
  user_keys store = env.range store (user_key 0) user_mask 256

  unfoldable pub find_user_by_name : env.Store → List ℕ → Option (ℕ × User)
  find_user_by_name store name = user_loop store (user_keys store) name

  -- The card is built again and put, if it fits 256 bytes.
  unfoldable pub store_user : env.Store → ℕ → User → env.Store
  store_user store card_id u = elim (build_user_card 256 u) [
    | none ↦ store
    | some card ↦ (env.put store (user_key card_id) card).1
  ]

  -- The slot that a login takes, and the session in it.
  unfoldable pub open_session : Auth env → ℕ → List ℕ → ℕ → ℕ → Auth env
  open_session s card_id token created last =
      let slot = pick_slot s.sessions 0 uint32_max 0 in
      record s {
        sessions = set s.sessions slot (record {
          token = token;
          user_card = card_id;
          created_ms = created;
          last_ms = last;
          active = true;
        });
      }

  -- The card id, or `none` for -1. The token is the random bytes, the times those of two readings.
  unfoldable pub user_auth_login : Auth env → List ℕ → List ℕ → List ℕ → ℕ → ℕ → Option ℕ × Auth env
  user_auth_login s username password token created last =
      elim (find_user_by_name s.store username) [
        | none ↦ (none, s)
        | some (card_id, user) ↦
            let good = same_bytes (env.sha256 (user.salt ++ password)) user.hash in
            let failed = record s { store = store_user s.store card_id (failed_login user) } in
            let cleared =
              if ltb 0 user.fail_count
              then store_user s.store card_id (record user { fail_count = 0 })
              else s.store in
            if (length username == 0) || ltb user_max_name (length username)
            then (none, s)
            else if (length password == 0) || ltb user_max_pass (length password)
            then (none, s)
            else if not (bit_and user.flags flag_locked == 0)
            then (none, s)
            else if not good
            then (none, failed)
            else (
              some card_id,
              open_session (record s { store = cleared }) card_id token created last,
            )
      ]

  unfoldable pub user_auth_logout : Auth env → List ℕ → Auth env
  user_auth_logout s token = elim (find_session s.sessions token 0) [
    | none ↦ s
    | some i ↦ record s { sessions = deactivate s.sessions i }
  ]

  -- The session of the token with the rights that the user's card has now.
  unfoldable pub user_auth_check : Auth env → List ℕ → ℕ → ℕ → Option UserSession × Auth env
  user_auth_check s token now now' = elim (find_session s.sessions token 0) [
    | none ↦ (none, s)
    | some i ↦
        let slot = slot_at s.sessions i in
        let elapsed = (now + (2 ^ 32 - slot.last_ms)) % 2 ^ 32 in
        let dropped = record s { sessions = deactivate s.sessions i } in
        let fresh = record s { sessions = set s.sessions i (record slot { last_ms = now' }) } in
        let refused = record s { sessions = deactivate fresh.sessions i } in
        if ltb session_timeout_ms elapsed
        then (none, dropped)
        else (elim (env.get_copy s.store (user_key slot.user_card) 512) [
          | none ↦ (none, refused)
          | some card ↦ elim (parse_user_card card) [
            | none ↦ (none, fresh)
            | some user ↦ (
              some (record {
                user_card = slot.user_card;
                flags = user.flags;
                read_packs = take 20 user.read_packs;
                write_packs = take 20 user.write_packs;
                delete_packs = take 20 user.delete_packs;
              }),
              fresh,
            )
          ]
        ])
  ]

  -- `pass` is checked against the card, which then gets the new password, salt and no failures.
  unfoldable pub user_auth_change_password :
      Auth env → ℕ → List ℕ → List ℕ → List ℕ → Bool × Auth env
  user_auth_change_password s user_card old_pass new_pass new_salt =
      elim (env.get_copy s.store (user_key user_card) 512) [
        | none ↦ (false, s)
        | some card ↦ elim (parse_user_card card) [
          | none ↦ (false, s)
          | some user ↦
              let user' : User = record {
                username = take user_max_name user.username;
                hash = env.sha256 (new_salt ++ new_pass);
                salt = new_salt;
                flags = user.flags;
                fail_count = 0;
                read_packs = take 20 user.read_packs;
                write_packs = take 20 user.write_packs;
                delete_packs = take 20 user.delete_packs;
              } in
              if not (same_bytes (env.sha256 (user.salt ++ old_pass)) user.hash)
              then (false, s)
              else (elim (build_user_card 256 user') [
                | none ↦ (false, s)
                | some new_card ↦
                    let (ok, store) = env.put s.store (user_key user_card) new_card in
                    (ok, record s { store = store })
              ])
        ]
      ]

  -- One more than the largest id of the keys.
  unfoldable pub next_id : List ℕ → ℕ → ℕ
  next_id [] id = id
  next_id (k ∷ ks) id = next_id ks (if leb id (k % 2 ^ 22) then k % 2 ^ 22 + 1 else id)

  unfoldable pub create_card : Auth env → User → Option ℕ × Auth env
  create_card s u =
      let id = next_id (user_keys s.store) 0 in
      elim (build_user_card 256 u) [
        | none ↦ (none, s)
        | some card ↦
            let (ok, store) = env.put s.store (user_key id) card in
            (if ok then some id else none, record s { store = store })
      ]

  -- `salt` is the random bytes.
  unfoldable pub user_auth_create_user :
      Auth env → List ℕ → List ℕ → ℕ → List ℕ → List ℕ → List ℕ → List ℕ → Option ℕ × Auth env
  user_auth_create_user s username password flags read_packs write_packs delete_packs salt =
      let u : User = record {
        username = username;
        hash = env.sha256 (salt ++ password);
        salt = salt;
        flags = flags;
        fail_count = 0;
        read_packs = read_packs;
        write_packs = write_packs;
        delete_packs = delete_packs;
      } in
      if (length username == 0) || ltb user_max_name (length username)
      then (none, s)
      else if (length password == 0) || ltb user_max_pass (length password)
      then (none, s)
      else (elim (find_user_by_name s.store username) [
        | some _ ↦ (none, s)
        | none ↦ create_card s u
      ])
