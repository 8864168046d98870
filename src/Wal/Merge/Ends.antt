-- ===== src/Wal/Merge/Ends.antt =====
-- The loop over the fields of a delta in `wal_do_append` of src/wal_engine.c, on a record that is a run
-- of fields.
use picowal.Prelude.{
  ℕ, zero, suc, ◌+◌, ◌^◌, ◌<◌, ◌≤◌, ◌≡◌, refl, ◌∙◌, List, [], ◌∷◌, arith, length, get_or, take,
  drop, ltb, leb, ◌==◌, Bool-cases, inl, inr, length-take_le, if_intro,
}
use picowal.KvFlash.State.{max_value}
use picowal.Wal.Merge.{Outcome, done, and_then, word_at, merge_field, merge_loop, merge}
use picowal.Wal.Merge.Fields.{Field, bytes_of, Words, update}
use picowal.Wal.Merge.Update.{merge_field-update}

-- The outcome is a record of at most 508 bytes that is a run of fields.
pub record IsRun (o : Outcome (List ℕ)) : Type 0 where
  pub fields : List Field
  pub words : Words fields
  pub small : length (bytes_of fields) ≤ max_value
  pub result : o ≡ done (bytes_of fields)

Words-update :
    (fs : List Field) (id : ℕ) (value : List ℕ)
    → id < 2 ^ 16
    → length value < 2 ^ 16
    → Words fs
    → Words (update fs id value)
unfolding update
Words-update [] id value i v w = (i, v, tt)
Words-update (f ∷ fs) id value i v w =
    if_intro Words (f.id == id) (λ e. (i, v, w.2))
      (λ e. (w.0, w.1, Words-update fs id value i v w.2))

merge_field-IsRun :
    (fs : List Field) (id : ℕ) (value : List ℕ)
    → id < 2 ^ 16
    → length value < 32764
    → Words fs
    → length (bytes_of fs) ≤ max_value
    → IsRun (merge_field (bytes_of fs) id value)
merge_field-IsRun fs id value i v w small =
    let e = merge_field-update fs id value w small v in
    elim (Bool-cases (leb (length (bytes_of (update fs id value))) max_value)) [
      | inl fits ↦ record {
        fields = update fs id value;
        words = Words-update fs id value i (omega arith) w;
        small = ground arith;
        result = e ∙ rw fits refl;
      }
      | inr over ↦ record { fields = fs; words = w; small = small; result = e ∙ rw over refl }
    ]

merge_loop-IsRun :
    (fuel : ℕ) (delta : List ℕ) (dpos : ℕ) (fs : List Field)
    → length delta < 32764
    → ((i : ℕ) → get_or delta i 0 < 256)
    → Words fs
    → length (bytes_of fs) ≤ max_value
    → IsRun (merge_loop fuel delta dpos (bytes_of fs))
unfolding merge_loop and_then word_at
merge_loop-IsRun zero delta dpos fs h bytes w small = record {
  fields = fs;
  words = w;
  small = small;
  result = refl;
}
merge_loop-IsRun (suc fuel) delta dpos fs h bytes w small =
    let stays : IsRun (done (bytes_of fs)) = record {
      fields = fs;
      words = w;
      small = small;
      result = refl;
    } in
    let data_len = word_at delta (dpos + 2) in
    let value = take data_len (drop (dpos + 4) delta) in
    if_intro IsRun (leb (dpos + 4) (length delta))
      (λ e.
        if_intro IsRun (ltb (length delta) (dpos + 4 + data_len)) (λ f. stays)
          (λ f.
            let r =
              merge_field-IsRun fs (word_at delta dpos) value
                (omega (arith, bytes dpos, bytes (dpos + 1)))
                (ground (arith, length-take_le data_len (drop (dpos + 4) delta))) w small in
            rw (r.result, and_then)
              (merge_loop-IsRun fuel delta (dpos + 4 + data_len) r.fields h bytes r.words r.small)))
      (λ e. stays)

-- On a record of at most 508 bytes that is a run of fields, the overlay of any delta of fewer than
-- 32764 bytes ends, stays in its buffer, and leaves a record of at most 508 bytes that is a run of
-- fields.
pub merge-IsRun :
    (delta : List ℕ) (fs : List Field)
    → length delta < 32764
    → ((i : ℕ) → get_or delta i 0 < 256)
    → Words fs
    → length (bytes_of fs) ≤ max_value
    → IsRun (merge delta (bytes_of fs))
unfolding merge
merge-IsRun delta fs h bytes w small = merge_loop-IsRun (length delta) delta 0 fs h bytes w small
