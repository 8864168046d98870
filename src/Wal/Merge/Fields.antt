-- ===== src/Wal/Merge/Fields.antt =====
-- The overlay against an update of a list of fields.
use picowal.Prelude.{
  ℕ, zero, suc, ◌+◌, ◌%◌, ◌^◌, ◌<◌, ◌≤◌, ◌≡◌, refl, ap, ◌∙◌, List, [], ◌∷◌, ◌++◌, arith, length,
  get_or, leb, ◌==◌, if◌then◌else◌, true, length-append,
}
use mathlib.Core.List.{append_assoc}
use picowal.KvFlash.Bytes.{le16}
use picowal.KvFlash.State.{max_value}
use picowal.Wal.Merge.{word_at, field_bytes, Search, hit, miss, find_field}

-- A field: its id and its bytes.
pub record Field : Type 0 where
  pub id : ℕ
  pub value : List ℕ

-- The buffer of a list of fields.
unfoldable pub bytes_of : List Field → List ℕ
bytes_of [] = []
bytes_of (f ∷ fs) = field_bytes f.id f.value ++ bytes_of fs

-- The ids and the lengths are words.
abbrev pub Words : List Field → Type 0
Words [] = Unit
Words (f ∷ fs) = (f.id < 2 ^ 16) × (length f.value < 2 ^ 16) × Words fs

-- The first field of the id gets the value; without one, the field is added at the end.
unfoldable pub update : List Field → ℕ → List ℕ → List Field
update [] id value = record { id = id; value = value } ∷ []
update (f ∷ fs) id value =
    if f.id == id then record { id = id; value = value } ∷ fs else f ∷ update fs id value

pub length-field_bytes :
    (id : ℕ) (value : List ℕ) → length (field_bytes id value) ≡ 4 + length value
unfolding field_bytes le16
length-field_bytes id value = omega arith

get_or-past : (xs ys : List ℕ) (i d : ℕ) → get_or (xs ++ ys) (length xs + i) d ≡ get_or ys i d
get_or-past [] ys i d = let p : 0 + i ≡ i = omega arith in rw p refl
get_or-past (x ∷ xs) ys i d =
    let p : suc (length xs) + i ≡ suc (length xs + i) = omega arith in rw p (get_or-past xs ys i d)

pub word_at-past :
    (before ys : List ℕ) (i : ℕ) → word_at (before ++ ys) (length before + i) ≡ word_at ys i
unfolding word_at
word_at-past before ys i =
    let p : length before + i + 1 ≡ length before + (i + 1) = omega arith in
    rw p (rw (get_or-past before ys i 0, get_or-past before ys (i + 1) 0) refl)

-- The words of a field's header.
word_at-id :
    (id : ℕ) (value rest : List ℕ) → id < 2 ^ 16 → word_at (field_bytes id value ++ rest) 0 ≡ id
unfolding word_at field_bytes le16
word_at-id id value rest h = omega arith

pub word_at-length :
    (id : ℕ) (value rest : List ℕ)
    → length value < 2 ^ 16
    → word_at (field_bytes id value ++ rest) 2 ≡ length value
unfolding word_at field_bytes le16
word_at-length id value rest h = omega arith

-- Where the first field of the id begins, from `pos` on.
unfoldable pub position : List Field → ℕ → ℕ → Search
position [] id pos = miss
position (f ∷ fs) id pos = if f.id == id then hit pos else position fs id (pos + 4 + length f.value)

pub find_field-position :
    (fuel : ℕ) (before : List ℕ) (fs : List Field) (id : ℕ)
    → Words fs
    → length fs < fuel
    → length (before ++ bytes_of fs) ≤ max_value
    → find_field fuel (before ++ bytes_of fs) id (length before) ≡ position fs id (length before)
unfolding find_field bytes_of position
find_field-position zero before fs id w h small = absurd (omega arith)
find_field-position (suc fuel) before [] id w h small = ground (arith, length-append before [])
find_field-position (suc fuel) before (f ∷ fs) id w h small =
    let fb = field_bytes f.id f.value in
    let all = before ++ (fb ++ bytes_of fs) in
    let next = length before + 4 + length f.value in
    let here : word_at all (length before) ≡ f.id =
      let p : length before ≡ length before + 0 = omega arith in
      ap (word_at all) p
      ∙ word_at-past before (fb ++ bytes_of fs) 0
      ∙ word_at-id f.id f.value (bytes_of fs) w.0 in
    let len : word_at all (length before + 2) ≡ length f.value =
      word_at-past before (fb ++ bytes_of fs) 2 ∙ word_at-length f.id f.value (bytes_of fs) w.1 in
    let sum : length all ≡ next + length (bytes_of fs) = omega (
      arith,
      length-append before (fb ++ bytes_of fs),
      length-append fb (bytes_of fs),
      length-field_bytes f.id f.value,
    ) in
    let reach : length (before ++ fb) ≡ next =
      omega (arith, length-append before fb, length-field_bytes f.id f.value) in
    let all' : before ++ fb ++ bytes_of fs ≡ all = append_assoc before fb (bytes_of fs) in
    let small' : length (before ++ fb ++ bytes_of fs) ≤ max_value = omega (arith, ap length all') in
    let later : find_field fuel all id next ≡ position fs id next =
      cc (all', reach, find_field-position fuel (before ++ fb) fs id w.2 (omega arith) small') in
    let wrap : next % 2 ^ 16 ≡ next = omega arith in
    let inside : leb (length before + 4) (length all) ≡ true = ground arith in
    rw (inside, find_field) (rw (here, len) (rw wrap (rw later refl)))
