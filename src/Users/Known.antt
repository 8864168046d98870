-- ===== src/Users/Known.antt =====
-- The users that a name finds, in src/user_auth.c, and a card that is stored again.
use native.Mathlib.Decide.{ℕ_discrete}
use picowal.Prelude.{
  ℕ, ◌/◌, ◌%◌, ◌^◌, ◌<◌, ◌≤◌, ◌≡◌, ◌≢◌, refl, sym, ap, ◌∙◌, true, false, none, some, List, [], ◌∷◌,
  arith, Bool-cases, Option-cases, inl, inr,
}
use picowal.Users.Card.{User, parse_user_card}
use picowal.Users.Card.Rounds.{IsUser}
use picowal.Users.Card.Roundtrip.{card_size, parse_user_card-build}
use picowal.Users.State.{AuthEnv, user_key, pack_key, same_bytes, same_bytes_self}
use picowal.Users.Laws.{InPack, IsSaved}
use picowal.Users.Login.{user_loop, user_keys, user_at, find_user_by_name, store_user}

-- The user that is stored, and that the name finds.
pub record IsKnown (env : AuthEnv) (store : env.Store) (card_id : ℕ) (u : User) : Type 0 where
  pub found : find_user_by_name env store u.username ≡ some (card_id, u)
  pub id_in : card_id < 2 ^ 22
  pub user : IsUser u
  pub fits : card_size u ≤ 256

pub user_loop-hit :
    (env : AuthEnv) (store : env.Store) (k : ℕ) (ks name : List ℕ) (v : User)
    → user_at env store k ≡ some v
    → same_bytes v.username name ≡ true
    → user_loop env store (k ∷ ks) name ≡ some (k % 2 ^ 22, v)
unfolding user_loop
user_loop-hit env store k ks name v e f = rw (e, user_loop) (rw f refl)

user_loop-miss :
    (env : AuthEnv) (store : env.Store) (k : ℕ) (ks name : List ℕ) (v : User)
    → user_at env store k ≡ some v
    → same_bytes v.username name ≡ false
    → user_loop env store (k ∷ ks) name ≡ user_loop env store ks name
unfolding user_loop
user_loop-miss env store k ks name v e f = rw (e, user_loop) (rw f refl)

user_loop-none :
    (env : AuthEnv) (store : env.Store) (k : ℕ) (ks name : List ℕ)
    → user_at env store k ≡ none
    → user_loop env store (k ∷ ks) name ≡ user_loop env store ks name
unfolding user_loop
user_loop-none env store k ks name e = rw (e, user_loop) refl

user_key-eq : (k card_id : ℕ) → k / 2 ^ 22 ≡ 1 → k % 2 ^ 22 ≡ card_id → user_key card_id ≡ k
unfolding pack_key
user_key-eq k card_id e f = omega arith

user_key-id : (card_id : ℕ) → card_id < 2 ^ 22 → user_key card_id % 2 ^ 22 ≡ card_id
unfolding pack_key
user_key-id card_id h = omega arith

-- The user that is found stands at the key of its card.
found-user_at :
    (env : AuthEnv) (store : env.Store) (card_id : ℕ) (u : User) (name ks : List ℕ)
    → InPack ks
    → user_loop env store ks name ≡ some (card_id, u)
    → user_at env store (user_key card_id) ≡ some u
unfolding user_loop
found-user_at env store card_id u name [] p h = cc
found-user_at env store card_id u name (k ∷ ks) p h = elim (Option-cases (user_at env store k)) [
  | inl e ↦
      found-user_at env store card_id u name ks p.1 (sym (user_loop-none env store k ks name e) ∙ h)
  | inr (v, e) ↦ elim (Bool-cases (same_bytes v.username name)) [
    | inr f ↦
        found-user_at env store card_id u name ks p.1
          (sym (user_loop-miss env store k ks name v e f) ∙ h)
    | inl f ↦
        let q : some (k % 2 ^ 22, v) ≡ some (card_id, u) =
          sym (user_loop-hit env store k ks name v e f) ∙ h in
        let id : k % 2 ^ 22 ≡ card_id = cc q in
        let same : v ≡ u = cc q in
        ap (user_at env store) (user_key-eq k card_id p.0 id) ∙ e ∙ ap some same
  ]
]

pub user_at-some :
    (env : AuthEnv) (store : env.Store) (k : ℕ) (card : List ℕ)
    → env.get_copy store k 512 ≡ some card
    → user_at env store k ≡ parse_user_card card
unfolding user_at
user_at-some env store k card e = rw (e, user_at) refl

user_at-none :
    (env : AuthEnv) (store : env.Store) (k : ℕ)
    → env.get_copy store k 512 ≡ none
    → user_at env store k ≡ none
unfolding user_at
user_at-none env store k e = rw (e, user_at) refl

user_at-get :
    (env : AuthEnv) (store : env.Store) (k : ℕ) (u : User)
    → user_at env store k ≡ some u
    → (card : List ℕ) × (env.get_copy store k 512 ≡ some card)
user_at-get env store k u h = elim (Option-cases (env.get_copy store k 512)) [
  | inl e ↦ let q : none ≡ some u = sym (user_at-none env store k e) ∙ h in absurd (cc q)
  | inr (card, e) ↦ (card, e)
]

-- The card that was put is the user's.
pub saved-parse :
    {env : AuthEnv} (store : env.Store) (card_id : ℕ) (u : User)
    (saved : IsSaved env store card_id u)
    → IsUser u
    → card_size u ≤ 256
    → parse_user_card saved.card ≡ some u
saved-parse store card_id u saved is_user fits =
    let (card, build, size, parse) = parse_user_card-build 256 u is_user fits in
    let q : some card ≡ some saved.card = sym build ∙ saved.built in
    let same : card ≡ saved.card = cc q in ap parse_user_card (sym same) ∙ parse

pub store_user-eq :
    {env : AuthEnv} (store : env.Store) (card_id : ℕ) (u : User)
    (saved : IsSaved env store card_id u)
    → store_user env store card_id u ≡ (env.put store (user_key card_id) saved.card).1
unfolding store_user
store_user-eq store card_id u saved = rw (saved.built, store_user) refl

module _ {env : AuthEnv} (store : env.Store) (card_id : ℕ) (u u' : User)
    (same_name : u'.username ≡ u.username) (is_user : IsUser u') (fits : card_size u' ≤ 256)
    (in_pack : InPack (user_keys env store)) (saved : IsSaved env store card_id u') where
  abbrev store' : env.Store
  store' = store_user env store card_id u'

  store'-eq : store' ≡ (env.put store (user_key card_id) saved.card).1
  store'-eq = store_user-eq store card_id u' saved

  user_at-store' : user_at env store' (user_key card_id) ≡ some u'
  user_at-store' =
      let back : env.get_copy store' (user_key card_id) 512 ≡ some saved.card =
        ap (λ t. env.get_copy t (user_key card_id) 512) store'-eq ∙ saved.back in
      user_at-some env store' (user_key card_id) saved.card back
      ∙ saved-parse store card_id u' saved is_user fits

  user_at-other : (k : ℕ) → user_key card_id ≢ k → user_at env store' k ≡ user_at env store k
  unfolding user_at
  user_at-other k ne =
      let same : env.get_copy store' k 512 ≡ env.get_copy store k 512 =
        ap (λ t. env.get_copy t k 512) store'-eq ∙ saved.others k ne in
      rw (same, user_at) refl

  user_loop-store' :
      (ks : List ℕ)
      → card_id < 2 ^ 22
      → InPack ks
      → user_loop env store ks u.username ≡ some (card_id, u)
      → user_loop env store' ks u.username ≡ some (card_id, u')
  unfolding user_loop
  user_loop-store' [] small p h = cc
  user_loop-store' (k ∷ ks) small p h = elim (ℕ_discrete (user_key card_id) k) [
    | yes here ↦
        let at_k : user_at env store' k ≡ some u' =
          ap (user_at env store') (sym here) ∙ user_at-store' in
        let name : same_bytes u'.username u.username ≡ true =
          ap (λ n. same_bytes n u.username) same_name ∙ same_bytes_self u.username in
        user_loop-hit env store' k ks u.username u' at_k name
        ∙ ap (λ i. some (i, u')) (ap (λ t. t % 2 ^ 22) (sym here) ∙ user_key-id card_id small)
    | no other ↦
        let same : user_at env store' k ≡ user_at env store k = user_at-other k other in
        elim (Option-cases (user_at env store k)) [
          | inl e ↦
              user_loop-none env store' k ks u.username (same ∙ e)
              ∙ user_loop-store' ks small p.1 (sym (user_loop-none env store k ks u.username e) ∙ h)
          | inr (v, e) ↦ elim (Bool-cases (same_bytes v.username u.username)) [
            | inr f ↦
                user_loop-miss env store' k ks u.username v (same ∙ e) f
                ∙ user_loop-store' ks small p.1
                    (sym (user_loop-miss env store k ks u.username v e f) ∙ h)
            | inl f ↦
                let q : some (k % 2 ^ 22, v) ≡ some (card_id, u) =
                  sym (user_loop-hit env store k ks u.username v e f) ∙ h in
                let id : k % 2 ^ 22 ≡ card_id = cc q in
                absurd (other (user_key-eq k card_id p.0 id))
          ]
        ]
  ]

  pub same_keys : user_keys env store' ≡ user_keys env store
  same_keys = ap (λ t. user_keys env t) store'-eq ∙ saved.same_users

  -- The name finds what was stored, if it found the user before.
  find-store' :
      card_id < 2 ^ 22
      → find_user_by_name env store u.username ≡ some (card_id, u)
      → find_user_by_name env store' u'.username ≡ some (card_id, u')
  unfolding find_user_by_name
  find-store' small h =
      ap (user_loop env store' (user_keys env store')) same_name
      ∙ ap (λ ks. user_loop env store' ks u.username) same_keys
      ∙ user_loop-store' (user_keys env store) small in_pack h

  pub store_user-IsKnown :
      card_id < 2 ^ 22
      → find_user_by_name env store u.username ≡ some (card_id, u)
      → IsKnown env store' card_id u'
  store_user-IsKnown small h = record {
    found = find-store' small h;
    id_in = small;
    user = is_user;
    fits = fits;
  }

pub IsKnown-user_at :
    {env : AuthEnv} (store : env.Store) (card_id : ℕ) (u : User)
    → InPack (user_keys env store)
    → IsKnown env store card_id u
    → (card : List ℕ) × (env.get_copy store (user_key card_id) 512 ≡ some card)
      × (parse_user_card card ≡ some u)
unfolding find_user_by_name
IsKnown-user_at {env} store card_id u in_pack known =
    let at : user_at env store (user_key card_id) ≡ some u =
      found-user_at env store card_id u u.username (user_keys env store) in_pack known.found in
    let (card, e) = user_at-get env store (user_key card_id) u at in
    (card, e, sym (user_at-some env store (user_key card_id) card e) ∙ at)
