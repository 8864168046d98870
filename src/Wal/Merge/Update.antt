-- ===== src/Wal/Merge/Update.antt =====
-- Merging one field in `wal_do_append` of src/wal_engine.c, and an update of a list of fields.
use picowal.Prelude.{
  ℕ, zero, suc, ◌+◌, ◌*◌, ◌/◌, ◌%◌, ◌^◌, ◌<◌, ◌≤◌, ◌≡◌, ◌≢◌, refl, ap, ◌∙◌, sym, List, [], ◌∷◌,
  ◌++◌, arith, length, leb, ◌==◌, if◌then◌else◌, Bool-cases, inl, inr, false, length-append,
}
use mathlib.Core.List.{append_assoc, append-nil}
use picowal.KvFlash.Bytes.{le16}
use picowal.KvFlash.State.{max_value}
use picowal.Wal.Merge.{word_at, field_bytes, running, find_field, place_field, done, merge_field}
use picowal.Wal.Merge.Fields.{
  Field, bytes_of, Words, update, length-field_bytes, position, find_field-position,
}
use picowal.Wal.Merge.Place.{
  append_field-fits, append_field-full, place_field-fits, place_field-full, place_field-miss,
  length_word, lengths, reach, spliced, spliced-eq,
}

module _ (id : ℕ) (value : List ℕ) where
  -- The step that the search leads to, for the fields behind `before`.
  place_field-update :
      (before : List ℕ) (fs : List Field)
      → Words fs
      → length value < 32764
      → length (before ++ bytes_of fs) ≤ max_value
      → length (before ++ bytes_of (update fs id value)) ≤ max_value
      → place_field (position fs id (length before)) (before ++ bytes_of fs) id value
        ≡ done (before ++ bytes_of (update fs id value))
  unfolding position bytes_of update
  place_field-update before [] w v old new =
      place_field-miss id value (before ++ [])
      ∙ ap done (
          append_field-fits id value (before ++ []) (
            omega (
              arith,
              length-append before [],
              lengths id value before (record { id = id; value = value }) [],
            ))
          ∙ append_assoc before [] (field_bytes id value)
          ∙ ap (λ t. before ++ t) (sym (append-nil (field_bytes id value))))
  place_field-update before (f ∷ fs) w v old new = elim (Bool-cases (f.id == id)) [
    | inl e ↦
        let new' : length (before ++ (field_bytes id value ++ bytes_of fs)) ≤ max_value =
          ground (arith, new) in
        rw e (
          place_field-fits id value (before ++ (field_bytes f.id f.value ++ bytes_of fs))
            (length before)
            (omega (
              arith,
              length_word id value before f (bytes_of fs) w.1,
              lengths id value before f (bytes_of fs),
              lengths id value before (record { id = id; value = value }) (bytes_of fs),
            ))
            v
            (omega (
              arith,
              length_word id value before f (bytes_of fs) w.1,
              lengths id value before f (bytes_of fs),
            ))
            old
          ∙ ap done (
              ap
                (λ n.
                  spliced (before ++ (field_bytes f.id f.value ++ bytes_of fs)) (length before)
                    (length before + 4 + n) id value)
                (length_word id value before f (bytes_of fs) w.1)
              ∙ spliced-eq before (bytes_of fs) value f id))
    | inr e ↦
        let fb = field_bytes f.id f.value in
        let later = bytes_of (update fs id value) in
        let new' : length (before ++ (fb ++ later)) ≤ max_value = ground (arith, new) in
        let all : before ++ fb ++ later ≡ before ++ (fb ++ later) = append_assoc before fb later in
        let same_all : before ++ fb ++ bytes_of fs ≡ before ++ (fb ++ bytes_of fs) =
          append_assoc before fb (bytes_of fs) in
        rw e (
          cc (
            append_assoc before fb (bytes_of fs),
            all,
            reach id value before f,
            place_field-update (before ++ fb) fs w.2 v (omega (arith, ap length same_all))
                (omega (arith, ap length all)),
          ))
  ]

  -- What does not fit changes nothing.
  place_field-too_long :
      (before : List ℕ) (fs : List Field)
      → Words fs
      → length value < 32764
      → length (before ++ bytes_of fs) ≤ max_value
      → max_value < length (before ++ bytes_of (update fs id value))
      → place_field (position fs id (length before)) (before ++ bytes_of fs) id value
        ≡ done (before ++ bytes_of fs)
  unfolding position bytes_of update
  place_field-too_long before [] w v old new =
      place_field-miss id value (before ++ [])
      ∙ ap done (
          append_field-full id value (before ++ []) (
            omega (
              arith,
              length-append before [],
              lengths id value before (record { id = id; value = value }) [],
            )))
  place_field-too_long before (f ∷ fs) w v old new = elim (Bool-cases (f.id == id)) [
    | inl e ↦
        let new' : max_value < length (before ++ (field_bytes id value ++ bytes_of fs)) =
          ground (arith, new) in
        rw e (
          place_field-full id value (before ++ (field_bytes f.id f.value ++ bytes_of fs))
            (length before)
            (omega (
              arith,
              length_word id value before f (bytes_of fs) w.1,
              lengths id value before f (bytes_of fs),
              lengths id value before (record { id = id; value = value }) (bytes_of fs),
            ))
            v
            (omega (
              arith,
              length_word id value before f (bytes_of fs) w.1,
              lengths id value before f (bytes_of fs),
            ))
            old)
    | inr e ↦
        let fb = field_bytes f.id f.value in
        let later = bytes_of (update fs id value) in
        let new' : max_value < length (before ++ (fb ++ later)) = ground (arith, new) in
        let all : before ++ fb ++ later ≡ before ++ (fb ++ later) = append_assoc before fb later in
        let same_all : before ++ fb ++ bytes_of fs ≡ before ++ (fb ++ bytes_of fs) =
          append_assoc before fb (bytes_of fs) in
        rw e (
          cc (
            append_assoc before fb (bytes_of fs),
            reach id value before f,
            place_field-too_long (before ++ fb) fs w.2 v (omega (arith, ap length same_all))
                (omega (arith, ap length all)),
          ))
  ]

pub length-bytes_of : (fs : List Field) → length fs ≤ length (bytes_of fs)
unfolding bytes_of
length-bytes_of [] = omega arith
length-bytes_of (f ∷ fs) = omega (
  arith,
  length-append (field_bytes f.id f.value) (bytes_of fs),
  length-field_bytes f.id f.value,
  length-bytes_of fs,
)

-- On a record of at most 508 bytes that is a run of fields, merging a field of fewer than 32764 bytes
-- stays in the buffer and gives the first field of its id the new bytes, or adds the field at the end
-- if the record has none of its id; where the result would be longer than 508 bytes, the record stays
-- as it is.
pub merge_field-update :
    (fs : List Field) (id : ℕ) (value : List ℕ)
    → Words fs
    → length (bytes_of fs) ≤ max_value
    → length value < 32764
    → merge_field (bytes_of fs) id value
      ≡ done (
          if leb (length (bytes_of (update fs id value))) max_value
          then bytes_of (update fs id value)
          else bytes_of fs)
unfolding merge_field
merge_field-update fs id value w small v =
    let found =
      find_field-position (length (bytes_of fs) + 1) [] fs id w (omega (arith, length-bytes_of fs))
        small in
    elim (Bool-cases (leb (length (bytes_of (update fs id value))) max_value)) [
      | inl e ↦ rw (e, found) (place_field-update id value [] fs w v small (ground arith))
      | inr e ↦ rw (e, found) (place_field-too_long id value [] fs w v small (ground arith))
    ]

-- The search of a record that is one field, of another id and with a length word of 65532, never
-- ends: it comes back to the position where it started.
pub find_field-runs :
    (fuel field_id other : ℕ)
    → other < 2 ^ 16
    → other ≢ field_id
    → find_field fuel (le16 other ++ le16 65532) field_id 0 ≡ running
unfolding find_field word_at le16
find_field-runs zero field_id other h ne = refl
find_field-runs (suc fuel) field_id other h ne =
    let miss_id : (other % 256 + 256 * (other / 256 % 256)) == field_id ≡ false = ground arith in
    rw miss_id (find_field-runs fuel field_id other h ne)
