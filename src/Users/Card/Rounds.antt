-- ===== src/Users/Card/Rounds.antt =====
-- The rounds of the parser over the fields of a built card.
use picowal.Prelude.{
  ℕ, suc, ◌+◌, ◌-◌, ◌*◌, ◌/◌, ◌%◌, ◌^◌, ◌<◌, ◌≤◌, ◌≡◌, refl, sym, some, List, [], ◌∷◌, ◌++◌, arith,
  length, take, false, true, ltb, leb, length-append, take-append, drop-append,
}
use picowal.Users.Card.{
  User, user_hash_len, user_salt_len, plain_field, prefixed_field, pack_bytes, card_fields,
  parse_field, Fields, no_fields, counted, first_byte, take_field, parse_loop, pack_words,
}

-- The packs are words.
abbrev pub Words : List ℕ → Type 0
Words [] = Unit
Words (p ∷ ps) = (p < 2 ^ 16) × Words ps

-- Lengths that the bytes of a card can hold.
pub record IsUser (u : User) : Type 0 where
  pub username_in : length u.username ≤ 254
  pub hash_in : length u.hash ≡ user_hash_len
  pub salt_in : length u.salt ≡ user_salt_len
  pub read_in : length u.read_packs ≤ 127
  pub write_in : length u.write_packs ≤ 127
  pub delete_in : length u.delete_packs ≤ 127
  pub read_words : Words u.read_packs
  pub write_words : Words u.write_packs
  pub delete_words : Words u.delete_packs

pub length-pack_bytes : (ps : List ℕ) → length (pack_bytes ps) ≡ 2 * length ps
unfolding pack_bytes
length-pack_bytes [] = omega arith
length-pack_bytes (p ∷ ps) = omega (arith, length-pack_bytes ps)

pub pack_words-pack_bytes : (ps : List ℕ) → Words ps → pack_words (pack_bytes ps) ≡ ps
unfolding pack_words pack_bytes
pack_words-pack_bytes [] w = refl
pack_words-pack_bytes (p ∷ ps) w =
    let e : p % 256 + 256 * (p / 256 % 256) ≡ p = omega (arith, w.0) in
    rw (e, pack_words-pack_bytes ps w.1) refl

-- All the parts behind the buffer.
unfoldable pub joined : List (List ℕ) → List ℕ
joined [] = []
joined (f ∷ fs) = f ++ joined fs

parse_field-field :
    (o flen : ℕ) (bytes rest : List ℕ)
    → flen ≡ length bytes
    → parse_field (o ∷ flen ∷ (bytes ++ rest))
      ≡ some (record { ord = o % 32; flen = flen; at = bytes ++ rest; next = rest })
unfolding parse_field
parse_field-field o flen bytes rest e =
    let inside : ltb (length (bytes ++ rest)) flen ≡ false =
      ground (arith, length-append bytes rest) in
    rw inside (rw e (rw drop-append refl))

parse_loop-plain :
    (fuel ord : ℕ) (bytes rest : List ℕ) (out : Fields)
    → length bytes < 256
    → parse_loop (suc fuel) (plain_field ord bytes ++ rest) out
      ≡ parse_loop fuel rest (
          take_field
            (record { ord = ord % 32; flen = length bytes; at = bytes ++ rest; next = rest })
            out)
unfolding parse_loop plain_field
parse_loop-plain fuel ord bytes rest out h =
    let len : length bytes % 256 ≡ length bytes = omega arith in
    rw (len, parse_loop) (rw (parse_field-field ord (length bytes) bytes rest refl) refl)

parse_loop-prefixed :
    (fuel ord : ℕ) (bytes rest : List ℕ) (out : Fields)
    → length bytes < 255
    → parse_loop (suc fuel) (prefixed_field ord bytes ++ rest) out
      ≡ parse_loop fuel rest (
          take_field
            (record {
              ord = ord % 32;
              flen = suc (length bytes);
              at = length bytes ∷ (bytes ++ rest);
              next = rest;
            })
            out)
unfolding parse_loop prefixed_field
parse_loop-prefixed fuel ord bytes rest out h =
    let len : (1 + length bytes) % 256 ≡ suc (length bytes) = omega arith in
    let len' : length bytes % 256 ≡ length bytes = omega arith in
    rw (len, len', parse_loop)
      (rw (parse_field-field ord (suc (length bytes)) (length bytes ∷ bytes) rest refl) refl)

counted-all :
    (bytes rest : List ℕ) → counted (suc (length bytes)) (length bytes ∷ (bytes ++ rest)) ≡ bytes
unfolding counted
counted-all bytes rest =
    let n : suc (length bytes) - 1 ≡ length bytes = omega arith in
    let stays : ltb (length bytes) (length bytes) ≡ false = ground arith in
    rw n (rw (stays, take-append) refl)

-- What the fields of a card give, one behind the other.
unfoldable pub parsed : User → Fields
parsed u = record {
  username = some u.username;
  hash = some u.hash;
  salt = some u.salt;
  flags = u.flags;
  fail_count = u.fail_count;
  read_bytes = pack_bytes u.read_packs;
  write_bytes = pack_bytes u.write_packs;
  del_bytes = pack_bytes u.delete_packs;
}

take_some : (n : ℕ) (bytes rest : List ℕ) → length bytes ≡ n → take n (bytes ++ rest) ≡ bytes
take_some n bytes rest e = rw (sym e) (take-append bytes rest)

some_bytes : (n : ℕ) → leb 1 (suc n) ≡ true
some_bytes n = ground arith

-- The rounds over the fields of a built card.
module _ (fuel : ℕ) (bytes rest : List ℕ) (out : Fields) (short : length bytes < 255) where
  round_username :
      parse_loop (suc fuel) (prefixed_field 0 bytes ++ rest) out
      ≡ parse_loop fuel rest (record out { username = some bytes })
  unfolding take_field
  round_username =
      rw (parse_loop-prefixed fuel 0 bytes rest out short) (rw (some_bytes, counted-all) refl)

  round_read :
      parse_loop (suc fuel) (prefixed_field 5 bytes ++ rest) out
      ≡ parse_loop fuel rest (record out { read_bytes = bytes })
  unfolding take_field
  round_read =
      rw (parse_loop-prefixed fuel 5 bytes rest out short) (rw (some_bytes, counted-all) refl)

  round_write :
      parse_loop (suc fuel) (prefixed_field 6 bytes ++ rest) out
      ≡ parse_loop fuel rest (record out { write_bytes = bytes })
  unfolding take_field
  round_write =
      rw (parse_loop-prefixed fuel 6 bytes rest out short) (rw (some_bytes, counted-all) refl)

  round_delete :
      parse_loop (suc fuel) (prefixed_field 7 bytes ++ rest) out
      ≡ parse_loop fuel rest (record out { del_bytes = bytes })
  unfolding take_field
  round_delete =
      rw (parse_loop-prefixed fuel 7 bytes rest out short) (rw (some_bytes, counted-all) refl)

  round_hash :
      length bytes ≡ user_hash_len
      → parse_loop (suc fuel) (plain_field 1 bytes ++ rest) out
        ≡ parse_loop fuel rest (record out { hash = some bytes })
  unfolding take_field
  round_hash e =
      rw (parse_loop-plain fuel 1 bytes rest out (omega arith))
        (rw (take_some 32 bytes rest e) refl)

  round_salt :
      length bytes ≡ user_salt_len
      → parse_loop (suc fuel) (plain_field 2 bytes ++ rest) out
        ≡ parse_loop fuel rest (record out { salt = some bytes })
  unfolding take_field
  round_salt e =
      rw (parse_loop-plain fuel 2 bytes rest out (omega arith))
        (rw (take_some 16 bytes rest e) refl)

module _ (fuel b : ℕ) (rest : List ℕ) (out : Fields) where
  round_flags :
      parse_loop (suc fuel) (plain_field 3 (b ∷ []) ++ rest) out
      ≡ parse_loop fuel rest (record out { flags = b })
  unfolding take_field first_byte
  round_flags = rw (parse_loop-plain fuel 3 (b ∷ []) rest out (omega arith)) refl

  round_fail_count :
      parse_loop (suc fuel) (plain_field 4 (b ∷ []) ++ rest) out
      ≡ parse_loop fuel rest (record out { fail_count = b })
  unfolding take_field first_byte
  round_fail_count = rw (parse_loop-plain fuel 4 (b ∷ []) rest out (omega arith)) refl

abbrev pub eight : ℕ → ℕ
eight n = suc (suc (suc (suc (suc (suc (suc (suc n)))))))

pub parse_loop-card_fields :
    (n : ℕ) (u : User)
    → IsUser u
    → parse_loop (eight n) (joined (card_fields u)) no_fields ≡ parse_loop n [] (parsed u)
unfolding joined card_fields parsed
parse_loop-card_fields n u w =
    rw (round_username _ u.username _ no_fields (omega (arith, w.username_in))) (
      rw (round_hash _ u.hash _ _ (omega (arith, w.hash_in)) w.hash_in) (
        rw (round_salt _ u.salt _ _ (omega (arith, w.salt_in)) w.salt_in) (
          rw (round_flags _ u.flags) (
            rw (round_fail_count _ u.fail_count) (
              rw
                (round_read _ (pack_bytes u.read_packs) _ _
                  (omega (arith, length-pack_bytes u.read_packs, w.read_in)))
                (rw
                  (round_write _ (pack_bytes u.write_packs) _ _
                    (omega (arith, length-pack_bytes u.write_packs, w.write_in)))
                  (rw
                    (round_delete _ (pack_bytes u.delete_packs) _ _
                      (omega (arith, length-pack_bytes u.delete_packs, w.delete_in)))
                    refl)))))))
