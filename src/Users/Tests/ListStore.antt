-- ===== src/Users/Tests/ListStore.antt =====
-- A store that is a list of cards, with a hash of 32 bytes, and its puts.
use picowal.Prelude.{
  ℕ, zero, suc, ◌/◌, ◌^◌, ◌≤◌, ◌≡◌, ◌≢◌, ap, ◌∙◌, Bool, true, false, Option, none, some, List, [],
  ◌∷◌, ◌++◌, arith, length, take, if◌then◌else◌, if_intro, ltb, ◌==◌, replicate,
}
use picowal.Users.State.{AuthEnv, pack_key, user_key}
use picowal.Users.Card.{User}
use picowal.Users.Card.Rounds.{IsUser}
use picowal.Users.Card.Roundtrip.{card_size, parse_user_card-build}
use picowal.Users.Laws.{InPack, IsSaved}

abbrev pub Cards : Type 0
Cards = List (ℕ × List ℕ)

abbrev pub put_card : Cards → ℕ → List ℕ → Cards
put_card [] k v = (k, v) ∷ []
put_card ((j, w) ∷ rest) k v = if j == k then (k, v) ∷ rest else (j, w) ∷ put_card rest k v

abbrev pub card_at : Cards → ℕ → ℕ → Option (List ℕ)
card_at [] k room = none
card_at ((j, w) ∷ rest) k room =
    let later = card_at rest k room in
    if j == k then (if ltb room (length w) then none else some w) else later

abbrev pub pack_keys : Cards → ℕ → List ℕ
pack_keys [] prefix = []
pack_keys ((j, w) ∷ rest) prefix =
    let later = pack_keys rest prefix in if j / 2 ^ 22 == prefix / 2 ^ 22 then j ∷ later else later

abbrev pub put_some : Cards → ℕ → List ℕ → Bool × Cards
put_some s k v = if ltb 508 (length v) then (false, s) else (true, put_card s k v)

abbrev pub list_store : AuthEnv
list_store = record {
  Store = Cards;
  put = put_some;
  get_copy = card_at;
  range = λ s prefix mask max. take max (pack_keys s prefix);
  exists = λ s k. elim (card_at s k 508) [ none ↦ false | some _ ↦ true ];
  sha256 = λ bytes. take 32 (bytes ++ replicate 32 0);
}

card_at-put_card :
    (s : Cards) (k room : ℕ) (v : List ℕ)
    → length v ≤ room
    → card_at (put_card s k v) k room ≡ some v
card_at-put_card [] k room v h = ground arith
card_at-put_card ((j, w) ∷ rest) k room v h = ground (arith, card_at-put_card rest k room v h)

card_at-put_card_ne :
    (s : Cards) (k j room : ℕ) (v : List ℕ)
    → k ≢ j
    → card_at (put_card s k v) j room ≡ card_at s j room
card_at-put_card_ne [] k j room v h = ground arith
card_at-put_card_ne ((i, w) ∷ rest) k j room v h =
    ground (arith, card_at-put_card_ne rest k j room v h)

pack_keys-put_card_there :
    (s : Cards) (k room prefix : ℕ) (v w : List ℕ)
    → card_at s k room ≡ some w
    → pack_keys (put_card s k v) prefix ≡ pack_keys s prefix
pack_keys-put_card_there [] k room prefix v w h = absurd (cc h)
pack_keys-put_card_there ((i, x) ∷ rest) k room prefix v w h =
    ground (arith, pack_keys-put_card_there rest k room prefix v w)

pack_keys-InPack : (s : Cards) (max : ℕ) → InPack (take max (pack_keys s (user_key 0)))
unfolding pack_key
pack_keys-InPack [] zero = tt
pack_keys-InPack [] (suc max) = tt
pack_keys-InPack (c ∷ rest) zero = tt
pack_keys-InPack ((j, w) ∷ rest) (suc max) =
    if_intro (λ ks. InPack (take (suc max) ks)) (j / 2 ^ 22 == user_key 0 / 2 ^ 22)
      (λ e. (ground arith, pack_keys-InPack rest max)) (λ e. pack_keys-InPack rest (suc max))

put_some-small :
    (s : Cards) (k : ℕ) (v : List ℕ) → length v ≤ 508 → put_some s k v ≡ (true, put_card s k v)
put_some-small s k v h = ground arith

pub list_keys-InPack : (s : Cards) → InPack (take 256 (pack_keys s (user_key 0)))
list_keys-InPack s = pack_keys-InPack s 256

-- A card that replaces one in the list is saved.
pub list_store-IsSaved :
    (s : Cards) (card_id : ℕ) (u : User) (old : List ℕ)
    → IsUser u
    → card_size u ≤ 256
    → card_at s (user_key card_id) 512 ≡ some old
    → IsSaved list_store s card_id u
list_store-IsSaved s card_id u old is_user small there =
    let (card, built, size, parse) = parse_user_card-build 256 u is_user small in
    let put = put_some-small s (user_key card_id) card (omega arith) in
    record {
      card = card;
      built = built;
      back =
          ap (λ r. card_at r.1 (user_key card_id) 512) put
          ∙ card_at-put_card s (user_key card_id) 512 card (omega arith);
      others = λ k ne.
          ap (λ r. card_at r.1 k 512) put ∙ card_at-put_card_ne s (user_key card_id) k 512 card ne;
      same_users =
          ap (λ r. take 256 (pack_keys r.1 (user_key 0))) put
          ∙ ap (take 256)
              (pack_keys-put_card_there s (user_key card_id) 512 (user_key 0) card old there);
    }
