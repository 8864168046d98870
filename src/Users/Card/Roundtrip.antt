-- ===== src/Users/Card/Roundtrip.antt =====
-- `build_user_card` and `parse_user_card` of src/user_auth.c, one after the other.
use mathlib.Core.List.{append_assoc, append-nil}
use picowal.Prelude.{
  ℕ, zero, suc, ◌+◌, ◌-◌, ◌*◌, ◌≤◌, ◌≡◌, refl, sym, ap, ◌∙◌, some, List, [], ◌∷◌, ◌++◌, arith,
  length, false, ltb, length-append,
}
use picowal.Users.Card.{
  User, card_header, fit, fit_all, plain_field, prefixed_field, pack_bytes, card_fields,
  build_user_card, parse_field, Fields, no_fields, parse_loop, complete, parse_user_card,
}
use picowal.Users.Card.Rounds.{
  IsUser, length-pack_bytes, pack_words-pack_bytes, joined, parsed, eight, parse_loop-card_fields,
}

pub fit_all-joined :
    (buf_size : ℕ) (fs : List (List ℕ)) (buf card : List ℕ)
    → fit_all buf_size fs buf ≡ some card
    → card ≡ buf ++ joined fs
unfolding fit_all fit joined
fit_all-joined buf_size [] buf card h = ground (arith, append-nil buf)
fit_all-joined buf_size (f ∷ fs) buf card h =
    ground (arith, fit_all-joined buf_size fs (buf ++ f) card, append_assoc buf f (joined fs))

fit_all-fits :
    (buf_size : ℕ) (fs : List (List ℕ)) (buf : List ℕ)
    → length buf + length (joined fs) ≤ buf_size
    → fit_all buf_size fs buf ≡ some (buf ++ joined fs)
unfolding fit_all fit joined
fit_all-fits buf_size [] buf h = ap some (sym (append-nil buf))
fit_all-fits buf_size (f ∷ fs) buf h =
    let fits : ltb buf_size (length buf + length f) ≡ false =
      ground (arith, length-append f (joined fs)) in
    rw (fits, fit_all)
      (fit_all-fits buf_size fs (buf ++ f)
          (omega (arith, length-append buf f, length-append f (joined fs)))
        ∙ ap some (append_assoc buf f (joined fs)))

parse_loop-end : (fuel : ℕ) (out : Fields) → parse_loop fuel [] out ≡ out
unfolding parse_loop parse_field
parse_loop-end zero out = refl
parse_loop-end (suc fuel) out = refl

-- The number of bytes of the card.
unfoldable pub card_size : User → ℕ
card_size u =
    4
    + (3 + length u.username)
    + 34
    + 18
    + 3
    + 3
    + (3 + 2 * length u.read_packs)
    + (3 + 2 * length u.write_packs)
    + (3 + 2 * length u.delete_packs)

length-plain_field : (ord : ℕ) (bytes : List ℕ) → length (plain_field ord bytes) ≡ 2 + length bytes
unfolding plain_field
length-plain_field ord bytes = omega arith

length-prefixed_field :
    (ord : ℕ) (bytes : List ℕ) → length (prefixed_field ord bytes) ≡ 3 + length bytes
unfolding prefixed_field
length-prefixed_field ord bytes = omega arith

length-card_fields : (u : User) → IsUser u → 4 + length (joined (card_fields u)) ≡ card_size u
unfolding joined card_fields card_size
length-card_fields u w =
    let f7 = prefixed_field 7 (pack_bytes u.delete_packs) ++ [] in
    let f6 = prefixed_field 6 (pack_bytes u.write_packs) ++ f7 in
    let f5 = prefixed_field 5 (pack_bytes u.read_packs) ++ f6 in
    let f4 = plain_field 4 (u.fail_count ∷ []) ++ f5 in
    let f3 = plain_field 3 (u.flags ∷ []) ++ f4 in
    let f2 = plain_field 2 u.salt ++ f3 in
    let f1 = plain_field 1 u.hash ++ f2 in
    omega (
      arith,
      length-append (prefixed_field 7 (pack_bytes u.delete_packs)) [],
      length-append (prefixed_field 6 (pack_bytes u.write_packs)) f7,
      length-append (prefixed_field 5 (pack_bytes u.read_packs)) f6,
      length-append (plain_field 4 (u.fail_count ∷ [])) f5,
      length-append (plain_field 3 (u.flags ∷ [])) f4,
      length-append (plain_field 2 u.salt) f3,
      length-append (plain_field 1 u.hash) f2,
      length-append (prefixed_field 0 u.username) f1,
      length-prefixed_field 0 u.username,
      length-plain_field 1 u.hash,
      length-plain_field 2 u.salt,
      length-plain_field 3 (u.flags ∷ []),
      length-plain_field 4 (u.fail_count ∷ []),
      length-prefixed_field 5 (pack_bytes u.read_packs),
      length-prefixed_field 6 (pack_bytes u.write_packs),
      length-prefixed_field 7 (pack_bytes u.delete_packs),
      length-pack_bytes u.read_packs,
      length-pack_bytes u.write_packs,
      length-pack_bytes u.delete_packs,
      w.hash_in,
      w.salt_in,
    )

-- The card that is built, where it fits.
abbrev pub card_of : User → List ℕ
card_of u = 0x7D ∷ 0xCA ∷ 1 ∷ 0 ∷ joined (card_fields u)

build_user_card-fits :
    (buf_size : ℕ) (u : User)
    → IsUser u
    → card_size u ≤ buf_size
    → build_user_card buf_size u ≡ some (card_of u)
unfolding build_user_card joined
build_user_card-fits buf_size u w h =
    fit_all-fits buf_size (card_header ∷ card_fields u) [] (omega (arith, length-card_fields u w))

card_size_long : (u : User) → 12 ≤ card_size u
unfolding card_size
card_size_long u = omega arith

complete-parsed :
    (u : User)
    → IsUser u
    → complete (parsed u) (parsed u).username (parsed u).hash (parsed u).salt ≡ some u
unfolding complete parsed
complete-parsed u w = rw (pack_words-pack_bytes u.read_packs w.read_words) (
    rw (pack_words-pack_bytes u.write_packs w.write_words)
      (rw (pack_words-pack_bytes u.delete_packs w.delete_words) refl))

parse_user_card-card_of : (u : User) → IsUser u → parse_user_card (card_of u) ≡ some u
unfolding parse_user_card
parse_user_card-card_of u w =
    let rest = joined (card_fields u) in
    let n = length rest - 8 in
    let long : length rest ≡ eight n = omega (arith, length-card_fields u w, card_size_long u) in
    let fields : parse_loop (length rest) rest no_fields ≡ parsed u =
      ap (λ k. parse_loop k rest no_fields) long
      ∙ parse_loop-card_fields n u w
      ∙ parse_loop-end n (parsed u) in
    rw fields (complete-parsed u w)

-- A card of a user whose parts have lengths that fit their bytes is built where the buffer holds
-- it, and it is then parsed as the user it was built from.
pub parse_user_card-build :
    (buf_size : ℕ) (u : User)
    → IsUser u
    → card_size u ≤ buf_size
    → (card : List ℕ) × (build_user_card buf_size u ≡ some card)
      × (length card ≡ card_size u)
      × (parse_user_card card ≡ some u)
parse_user_card-build buf_size u w h = (
  card_of u,
  build_user_card-fits buf_size u w h,
  omega (arith, length-card_fields u w),
  parse_user_card-card_of u w,
)
