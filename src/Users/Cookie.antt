-- ===== src/Users/Cookie.antt =====
-- Session tokens in a Cookie header, of src/user_auth.c. A C string is the list of its characters
-- without the 0; the model is on the characters' codes.
pub mod Token
use picowal.Prelude.{
  ℕ, zero, suc, ◌+◌, ◌-◌, ◌*◌, ◌/◌, ◌%◌, Bool, true, false, ◌&&◌, ◌||◌, Option, none, some, List,
  [], ◌∷◌, ◌++◌, length, drop, ltb, leb, ◌==◌, if◌then◌else◌, codes,
}

-- One hexadecimal digit.
unfoldable pub hex_digit : ℕ → Option ℕ
hex_digit c =
    if leb b'0' c && leb c b'9'
    then some (c - b'0')
    else if leb b'a' c && leb c b'f'
    then some (c - b'a' + 10)
    else if leb b'A' c && leb c b'F'
    then some (c - b'A' + 10)
    else none

unfoldable pub hex_decode_byte : ℕ → ℕ → Option ℕ
hex_decode_byte hi lo = elim (hex_digit hi) [
  | none ↦ none
  | some h ↦ elim (hex_digit lo) [ none ↦ none | some l ↦ some (h * 16 % 256 + l) ]
]

-- Whether the text starts with the pattern.
unfoldable pub starts : List ℕ → List ℕ → Bool
starts [] text = true
starts (c ∷ pattern) [] = false
starts (c ∷ pattern) (d ∷ text) = (c == d) && starts pattern text

-- `strstr`: the text from the first occurrence on, and the character before it; `prev` is the one
-- before the text.
unfoldable pub find_text : List ℕ → Option ℕ → List ℕ → Option (Option ℕ × List ℕ)
find_text pattern prev [] = if starts pattern [] then some (prev, []) else none
find_text pattern prev (c ∷ text) =
    let later = find_text pattern (some c) text in
    if starts pattern (c ∷ text) then some (prev, c ∷ text) else later

-- At the start of the value, or behind `;`, a space or a tab.
unfoldable pub sid_starts : Option ℕ → Bool
sid_starts none = true
sid_starts (some c) = (c == b';') || (c == b' ') || (c == 9)

-- The loop over the occurrences of "sid=": the text behind the first that is a cookie's name. A round
-- takes at least four characters.
unfoldable pub find_sid : ℕ → Option ℕ → List ℕ → Option (List ℕ)
find_sid zero prev text = none
find_sid (suc fuel) prev text = elim (find_text (codes "sid=") prev text) [
  | none ↦ none
  | some (before, at) ↦
      let later = find_sid fuel (some b'=') (drop 4 at) in
      if sid_starts before then some (drop 4 at) else later
]

-- The loop over the bytes of the token; the text is known to be long enough.
unfoldable pub decode_token : ℕ → List ℕ → Option (List ℕ)
decode_token zero text = some []
decode_token (suc n) [] = none
decode_token (suc n) (c ∷ []) = none
decode_token (suc n) (hi ∷ lo ∷ text) = elim (hex_decode_byte hi lo) [
  | none ↦ none
  | some b ↦ elim (decode_token n text) [ none ↦ none | some bs ↦ some (b ∷ bs) ]
]

-- The header, with its name capitalised or else in small letters.
unfoldable pub find_cookie : List ℕ → Option (List ℕ)
find_cookie headers = elim (find_text (codes "Cookie:") none headers) [
  | some (_, at) ↦ some (drop 7 at)
  | none ↦ elim (find_text (codes "cookie:") none headers) [
    | some (_, at) ↦ some (drop 7 at)
    | none ↦ none
  ]
]

unfoldable pub user_auth_parse_cookie : List ℕ → Option (List ℕ)
user_auth_parse_cookie headers = elim (find_cookie headers) [
  | none ↦ none
  | some value ↦ elim (find_sid (suc (length value)) none value) [
    | none ↦ none
    | some sid ↦ let token = decode_token 16 sid in if ltb (length sid) 32 then none else token
  ]
]

-- "0123456789abcdef"[n]
unfoldable pub hex_char : ℕ → ℕ
hex_char n = if ltb n 10 then b'0' + n else b'a' + (n - 10)

unfoldable pub user_auth_format_token : List ℕ → List ℕ
user_auth_format_token [] = []
user_auth_format_token (b ∷ bs) = hex_char (b / 16) ∷ hex_char (b % 16) ∷ user_auth_format_token bs
