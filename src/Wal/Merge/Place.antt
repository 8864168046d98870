-- ===== src/Wal/Merge/Place.antt =====
-- `replace_field` and `append_field` of Merge, for src/wal_engine.c, on a record that is a run of fields.
use picowal.Prelude.{
  take, take-append, drop-append, ℕ, ◌+◌, ◌^◌, ◌<◌, ◌≤◌, ◌≡◌, refl, ap, ◌∙◌, sym, List, ◌++◌, arith,
  length, drop, length-append,
}
use mathlib.Core.List.{append_assoc}
use picowal.KvFlash.State.{max_value}
use picowal.Wal.Merge.{
  word_at, field_bytes, hit, miss, append_field, place_field, replace_field, is_too_long, done,
}
use picowal.Wal.Merge.Fields.{Field, length-field_bytes, word_at-past, word_at-length}

-- A replacement at the field.
pub spliced : List ℕ → ℕ → ℕ → ℕ → List ℕ → List ℕ
spliced merged mpos tail_start id value =
    take mpos merged ++ (field_bytes id value ++ drop tail_start merged)

pub spliced-eq :
    (before rest value : List ℕ) (f : Field) (id : ℕ)
    → spliced
        (before ++ (field_bytes f.id f.value ++ rest))
        (length before)
        (length before + 4 + length f.value)
        id
        value
      ≡ before ++ (field_bytes id value ++ rest)
unfolding spliced
spliced-eq before rest value f id =
    let fb = field_bytes f.id f.value in
    let tail_start : length before + 4 + length f.value ≡ length (before ++ fb) =
      omega (arith, length-append before fb, length-field_bytes f.id f.value) in
    let dropped : drop (length (before ++ fb)) (before ++ (fb ++ rest)) ≡ rest =
      ap (drop (length (before ++ fb))) (sym (append_assoc before fb rest))
      ∙ drop-append (before ++ fb) rest in
    rw tail_start (rw (dropped, take-append before (fb ++ rest)) refl)

module _ (id : ℕ) (value : List ℕ) where
  pub append_field-fits :
      (merged : List ℕ)
      → length merged + 4 + length value ≤ max_value
      → append_field merged id value ≡ merged ++ field_bytes id value
  unfolding append_field
  append_field-fits merged h = ground arith

  pub append_field-full :
      (merged : List ℕ)
      → max_value < length merged + 4 + length value
      → append_field merged id value ≡ merged
  unfolding append_field
  append_field-full merged h = ground arith

  pub place_field-fits :
      (merged : List ℕ) (mpos : ℕ)
      → length merged + length value ≤ max_value + word_at merged (mpos + 2)
      → length value < 32764
      → mpos + 4 + word_at merged (mpos + 2) ≤ length merged
      → length merged ≤ max_value
      → place_field (hit mpos) merged id value
        ≡ done (spliced merged mpos (mpos + 4 + word_at merged (mpos + 2)) id value)
  unfolding place_field replace_field is_too_long spliced
  place_field-fits merged mpos h v inside small = ground arith

  pub place_field-full :
      (merged : List ℕ) (mpos : ℕ)
      → max_value + word_at merged (mpos + 2) < length merged + length value
      → length value < 32764
      → mpos + 4 + word_at merged (mpos + 2) ≤ length merged
      → length merged ≤ max_value
      → place_field (hit mpos) merged id value ≡ done merged
  unfolding place_field is_too_long
  place_field-full merged mpos h v inside small = ground (arith, append_field-full merged)

  pub place_field-miss :
      (merged : List ℕ) → place_field miss merged id value ≡ done (append_field merged id value)
  unfolding place_field
  place_field-miss merged = refl

  -- The length word of the field at the end of `before`.
  pub length_word :
      (before : List ℕ) (f : Field) (rest : List ℕ)
      → length f.value < 2 ^ 16
      → word_at (before ++ (field_bytes f.id f.value ++ rest)) (length before + 2) ≡ length f.value
  length_word before f rest h =
      word_at-past before (field_bytes f.id f.value ++ rest) 2 ∙ word_at-length f.id f.value rest h

  pub lengths :
      (before : List ℕ) (f : Field) (rest : List ℕ)
      → length (before ++ (field_bytes f.id f.value ++ rest))
        ≡ length before + 4 + length f.value + length rest
  lengths before f rest = omega (
    arith,
    length-append before (field_bytes f.id f.value ++ rest),
    length-append (field_bytes f.id f.value) rest,
    length-field_bytes f.id f.value,
  )

  pub reach :
      (before : List ℕ) (f : Field)
      → length (before ++ field_bytes f.id f.value) ≡ length before + 4 + length f.value
  reach before f =
      omega
        (arith, length-append before (field_bytes f.id f.value), length-field_bytes f.id f.value)
