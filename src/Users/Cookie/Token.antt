-- ===== src/Users/Cookie/Token.antt =====
-- `user_auth_format_token` and `user_auth_parse_cookie` of src/user_auth.c, one after the other.
use picowal.Prelude.{
  ℕ, ◌*◌, ◌/◌, ◌%◌, ◌<◌, ◌≡◌, refl, sym, ap, ◌∙◌, false, some, List, [], ◌∷◌, ◌++◌, length, ltb,
  codes, arith, length-append,
}
use picowal.Users.Cookie.{
  hex_digit, hex_decode_byte, starts, find_text, sid_starts, find_sid, decode_token, find_cookie,
  user_auth_parse_cookie, hex_char, user_auth_format_token,
}

abbrev pub Bytes : List ℕ → Type 0
Bytes [] = Unit
Bytes (b ∷ bs) = (b < 256) × Bytes bs

hex_digit-char : (n : ℕ) → n < 16 → hex_digit (hex_char n) ≡ some n
unfolding hex_digit hex_char
hex_digit-char n h = ground arith

decode_byte-chars :
    (b : ℕ) → b < 256 → hex_decode_byte (hex_char (b / 16)) (hex_char (b % 16)) ≡ some b
unfolding hex_decode_byte
decode_byte-chars b h =
    rw (hex_digit-char (b / 16) (omega arith), hex_decode_byte)
      (rw (hex_digit-char (b % 16) (omega arith)) (ap some (omega arith)))

decode_token-format :
    (token rest : List ℕ)
    → Bytes token
    → decode_token (length token) (user_auth_format_token token ++ rest) ≡ some token
unfolding decode_token user_auth_format_token
decode_token-format [] rest h = refl
decode_token-format (b ∷ bs) rest h =
    rw (decode_byte-chars b h.0, decode_token) (rw (decode_token-format bs rest h.1) refl)

length-format : (token : List ℕ) → length (user_auth_format_token token) ≡ 2 * length token
unfolding user_auth_format_token
length-format [] = refl
length-format (b ∷ bs) = omega (arith, length-format bs)

-- A token of 16 bytes in the header of a request that starts with it is read back.
pub user_auth_parse_cookie-format :
    (token rest : List ℕ)
    → length token ≡ 16
    → Bytes token
    → user_auth_parse_cookie (codes "Cookie: sid=" ++ (user_auth_format_token token ++ rest))
      ≡ some token
unfolding user_auth_parse_cookie find_cookie find_text starts find_sid sid_starts
user_auth_parse_cookie-format token rest n h =
    let text = user_auth_format_token token ++ rest in
    let long : ltb (length text) 32 ≡ false =
      ground (arith, length-format token, length-append (user_auth_format_token token) rest, n) in
    let decoded : decode_token (length token) text ≡ some token =
      decode_token-format token rest h in
    rw long (ap (λ k. decode_token k text) (sym n) ∙ decoded)
