-- ===== src/Users/Table.antt =====
-- The session table of src/user_auth.c: a slot that is taken or given up, and the search of a token.
use picowal.Prelude.{
  ℕ, zero, suc, ◌+◌, ◌<◌, ◌≡◌, refl, sym, ap, ◌∙◌, true, false, ◌&&◌, none, some, List, [], ◌∷◌,
  arith, length, set, Bool-cases, inl, inr,
}
use picowal.Users.State.{SessionSlot, same_bytes, same_bytes_self}
use picowal.Users.Login.{pick_slot, find_session}

-- A session that is put into a slot is found by its token if the token was not in use.
pub find_session-set :
    (ss : List SessionSlot) (token : List ℕ) (i j : ℕ) (slot : SessionSlot)
    → find_session ss token j ≡ none
    → i < length ss
    → slot.active ≡ true
    → slot.token ≡ token
    → find_session (set ss i slot) token j ≡ some (j + i)
unfolding find_session
find_session-set [] token i j slot fresh h a t = absurd (omega arith)
find_session-set (s ∷ ss) token zero j slot fresh h a t =
    ground (arith, ap (λ x. same_bytes x token) t, same_bytes_self token)
find_session-set (s ∷ ss) token (suc i) j slot fresh h a t =
    elim (Bool-cases (s.active && same_bytes s.token token)) [
      | inl e ↦ let q : some j ≡ none = sym (rw (e, find_session) refl) ∙ fresh in absurd (cc q)
      | inr e ↦
          let q : find_session ss token (j + 1) ≡ none = sym (rw (e, find_session) refl) ∙ fresh in
          rw (e, find_session)
            (find_session-set ss token i (j + 1) slot q (omega arith) a t ∙ ap some (omega arith))
    ]

-- A slot that is given up does not bring a token into use.
pub find_session-inactive :
    (ss : List SessionSlot) (token : List ℕ) (i j : ℕ) (slot : SessionSlot)
    → find_session ss token j ≡ none
    → slot.active ≡ false
    → find_session (set ss i slot) token j ≡ none
unfolding find_session
find_session-inactive [] token i j slot fresh a = refl
find_session-inactive (s ∷ ss) token i j slot fresh a =
    elim (Bool-cases (s.active && same_bytes s.token token)) [
      | inl e ↦ let q : some j ≡ none = sym (rw (e, find_session) refl) ∙ fresh in absurd (cc q)
      | inr e ↦
          let q : find_session ss token (j + 1) ≡ none = sym (rw (e, find_session) refl) ∙ fresh in
          elim i as (λ i. find_session (set (s ∷ ss) i slot) token j ≡ none) [
            | zero ↦ rw (a, find_session) q
            | suc i' ↦ rw (e, find_session) (find_session-inactive ss token i' (j + 1) slot q a)
          ]
    ]

pub pick_slot-lt :
    (ss : List SessionSlot) (i ms best : ℕ)
    → best < i + length ss
    → pick_slot ss i ms best < i + length ss
unfolding pick_slot
pick_slot-lt [] i ms best h = h
pick_slot-lt (s ∷ ss) i ms best h =
    ground (arith, pick_slot-lt ss (i + 1) s.created_ms i, pick_slot-lt ss (i + 1) ms best)
