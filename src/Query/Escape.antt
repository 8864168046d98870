-- ===== src/Query/Escape.antt =====
-- `escape_field` of src/query.c: a value in a row whose fields are parted by `|`.
pub mod Row
use picowal.Prelude.{
  ℕ, zero, suc, ◌+◌, ◌-◌, ◌*◌, ◌<◌, ◌≤◌, ◌≡◌, ◌≢◌, refl, sym, ap, ◌∙◌, Bool, true, false, Option,
  none, some, List, [], ◌∷◌, ◌++◌, length, take, drop, ltb, leb, ◌==◌, if◌then◌else◌, arith,
  length-append, Bool-cases, inl, inr, if_intro,
}
use mathlib.Core.List.{append_assoc, append-nil}

-- What stands for one character.
unfoldable pub escape_char : ℕ → List ℕ
escape_char c =
    if c == b'|'
    then b'\\' ∷ b'|' ∷ []
    else if c == 13
    then b'\\' ∷ b'r' ∷ []
    else if c == 10
    then b'\\' ∷ b'n' ∷ []
    else if c == b'\\'
    then b'\\' ∷ b'\\' ∷ []
    else c ∷ []

-- The loop, with what is written so far; it stops when fewer than three bytes are left, the one of the
-- 0 among them.
unfoldable pub escape_loop : ℕ → List ℕ → List ℕ → List ℕ
escape_loop max out [] = out
escape_loop max out (c ∷ val) =
    let rest = escape_loop max (out ++ escape_char c) val in
    if ltb (length out + 2) max then rest else out

unfoldable pub escape_field : ℕ → List ℕ → List ℕ
escape_field max val = escape_loop max [] val

length-escape_char : (c : ℕ) → length (escape_char c) ≤ 2
unfolding escape_char
length-escape_char c = ground arith

escape_loop-lt :
    (max : ℕ) (out val : List ℕ) → length out < max → length (escape_loop max out val) < max
unfolding escape_loop
escape_loop-lt max out [] h = h
escape_loop-lt max out (c ∷ val) h =
    if_intro (λ (r : List ℕ). length r < max) (ltb (length out + 2) max)
      (λ e.
        escape_loop-lt max (out ++ escape_char c) val
          (ground (arith, length-append out (escape_char c), length-escape_char c)))
      (λ e. h)

-- The text and its final 0 fit the buffer.
pub length-escape_field : (max : ℕ) (val : List ℕ) → 0 < max → length (escape_field max val) < max
unfolding escape_field
length-escape_field max val h = escape_loop-lt max [] val h
