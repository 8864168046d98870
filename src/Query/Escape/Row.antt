-- ===== src/Query/Escape/Row.antt =====
-- Rows of escaped values of src/query.c, and a reader of them.
use picowal.Prelude.{
  ℕ, ◌+◌, ◌*◌, ◌<◌, ◌≡◌, refl, sym, ap, ◌∙◌, true, false, List, [], ◌∷◌, ◌++◌, length, ltb, ◌==◌,
  if◌then◌else◌, arith, length-append, Bool-cases, inl, inr,
}
use mathlib.Core.List.{append_assoc, append-nil}
use picowal.Query.Escape.{escape_char, escape_loop, escape_field, length-escape_char}

-- The character that `\` and this one stand for.
pub unescape : ℕ → ℕ
unescape c = if c == b'r' then 13 else if c == b'n' then 10 else c

-- A character in front of the first field.
unfoldable pub push : ℕ → List (List ℕ) → List (List ℕ)
push c [] = (c ∷ []) ∷ []
push c (f ∷ fs) = (c ∷ f) ∷ fs

-- The fields of a row: `|` parts them, but behind `\` it belongs to a field.
unfoldable pub read_fields : List ℕ → List (List ℕ)
unfolding unescape
read_fields [] = [] ∷ []
read_fields (c ∷ []) = if c == b'|' then [] ∷ [] ∷ [] else push c ([] ∷ [])
read_fields (c ∷ d ∷ rest) =
    let behind = read_fields (d ∷ rest) in
    let after = read_fields rest in
    if c == b'\\' then push (unescape d) after else if c == b'|' then [] ∷ behind else push c behind

-- The values with `|` between them, each written into `max` bytes.
unfoldable pub write_row : ℕ → List ℕ → List (List ℕ) → List ℕ
write_row max v [] = escape_field max v
write_row max v (w ∷ vs) = escape_field max v ++ (b'|' ∷ write_row max w vs)

abbrev pub AllFit : ℕ → List (List ℕ) → Type 0
AllFit max [] = Unit
AllFit max (v ∷ vs) = (2 * length v < max) × AllFit max vs

escape_all : List ℕ → List ℕ
escape_all [] = []
escape_all (c ∷ val) = escape_char c ++ escape_all val

escape_loop-all :
    (max : ℕ) (out val : List ℕ)
    → length out + 2 * length val < max
    → escape_loop max out val ≡ out ++ escape_all val
unfolding escape_loop escape_all
escape_loop-all max out [] h = sym (append-nil out)
escape_loop-all max out (c ∷ val) h =
    let room : ltb (length out + 2) max ≡ true = ground arith in
    rw (room, escape_loop)
      (escape_loop-all max (out ++ escape_char c) val
          (omega (arith, length-append out (escape_char c), length-escape_char c))
        ∙ append_assoc out (escape_char c) (escape_all val))

escape_field-all :
    (max : ℕ) (val : List ℕ) → 2 * length val < max → escape_field max val ≡ escape_all val
unfolding escape_field
escape_field-all max val h = escape_loop-all max [] val (omega arith)

read_none : read_fields [] ≡ [] ∷ []
unfolding read_fields
read_none = refl

read_plain :
    (c : ℕ) (rest : List ℕ)
    → (c == b'\\') ≡ false
    → (c == b'|') ≡ false
    → read_fields (c ∷ rest) ≡ push c (read_fields rest)
unfolding read_fields
read_plain c [] e f = rw (f, read_fields) refl
read_plain c (d ∷ rest) e f = rw (e, read_fields) (rw f refl)

read_bar : (rest : List ℕ) → read_fields (b'|' ∷ rest) ≡ [] ∷ read_fields rest
unfolding read_fields
read_bar [] = refl
read_bar (d ∷ rest) = refl

read-escape_char :
    (c : ℕ) (rest : List ℕ) → read_fields (escape_char c ++ rest) ≡ push c (read_fields rest)
unfolding escape_char read_fields unescape
read-escape_char c rest = elim (Bool-cases (c == b'|')) [
  | inl e ↦
      let v : c ≡ b'|' = ground arith in
      rw (e, escape_char) (ap (λ x. push x (read_fields rest)) (sym v))
  | inr e ↦ elim (Bool-cases (c == 13)) [
    | inl f ↦
        let v : c ≡ 13 = ground arith in
        rw (e, escape_char) (rw f (ap (λ x. push x (read_fields rest)) (sym v)))
    | inr f ↦ elim (Bool-cases (c == 10)) [
      | inl g ↦
          let v : c ≡ 10 = ground arith in
          rw (e, escape_char) (rw f (rw g (ap (λ x. push x (read_fields rest)) (sym v))))
      | inr g ↦ elim (Bool-cases (c == b'\\')) [
        | inl h ↦
            let v : c ≡ b'\\' = ground arith in
            rw (e, escape_char) (rw f (rw g (rw h (ap (λ x. push x (read_fields rest)) (sym v)))))
        | inr h ↦ rw (e, escape_char) (rw f (rw g (rw h (read_plain c rest h e))))
      ]
    ]
  ]
]

push_all : List ℕ → List (List ℕ) → List (List ℕ)
push_all [] fs = fs
push_all (c ∷ cs) fs = push c (push_all cs fs)

push_all-first : (v : List ℕ) (fs : List (List ℕ)) → push_all v ([] ∷ fs) ≡ v ∷ fs
unfolding push_all push
push_all-first [] fs = refl
push_all-first (c ∷ cs) fs = rw (push_all-first cs fs) refl

read-escape_all :
    (v rest : List ℕ) → read_fields (escape_all v ++ rest) ≡ push_all v (read_fields rest)
unfolding escape_all push_all
read-escape_all [] rest = refl
read-escape_all (c ∷ cs) rest =
    ap read_fields (append_assoc (escape_char c) (escape_all cs) rest)
    ∙ read-escape_char c (escape_all cs ++ rest)
    ∙ ap (push c) (read-escape_all cs rest)

-- A row of values that each fit `max` bytes, however many of their characters are escaped, is read
-- back as these values, whatever characters they have.
pub read_fields-write_row :
    (max : ℕ) (v : List ℕ) (vs : List (List ℕ))
    → AllFit max (v ∷ vs)
    → read_fields (write_row max v vs) ≡ v ∷ vs
unfolding write_row
read_fields-write_row max v [] h =
    ap read_fields (escape_field-all max v h.0 ∙ sym (append-nil (escape_all v)))
    ∙ read-escape_all v []
    ∙ ap (push_all v) read_none
    ∙ push_all-first v []
read_fields-write_row max v (w ∷ vs) h =
    ap (λ t. read_fields (t ++ (b'|' ∷ write_row max w vs))) (escape_field-all max v h.0)
    ∙ read-escape_all v (b'|' ∷ write_row max w vs)
    ∙ ap (push_all v)
        (read_bar (write_row max w vs) ∙ ap (λ t. [] ∷ t) (read_fields-write_row max w vs h.1))
    ∙ push_all-first v (w ∷ vs)
