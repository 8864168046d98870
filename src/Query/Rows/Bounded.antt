-- ===== src/Query/Rows/Bounded.antt =====
-- The length of the rows that src/query.c writes, and the size of the buffer.
use picowal.Prelude.{
  ℕ, zero, suc, ◌+◌, ◌-◌, ◌*◌, ◌%◌, ◌^◌, ◌<◌, ◌≤◌, Bool, true, false, List, [], ◌∷◌, ◌++◌, length,
  ltb, if◌then◌else◌, arith, if_intro, length-append, Option-cases, inl, inr,
}
use picowal.Query.Escape.{escape_field, length-escape_field}
use picowal.Query.Field.{Decimal}
use picowal.Query.Packs.{QueryStore, PackSchema}
use picowal.Query.Plan.{Predicate, row_passes}
use picowal.Query.Rows.{Selected, selected_text, write_fields, end_row, write_rows, scan_rows}

module _ (env : QueryStore) (lib : Decimal) (store : env.Store) (primary : PackSchema)
    (buf_size : ℕ) where
  barred-lt :
      (first : Bool) (out : List ℕ)
      → length out < buf_size
      → length
          (if first then out else if ltb (length out + 1) buf_size then out ++ (b'|' ∷ []) else out)
        < buf_size
  barred-lt true out h = h
  barred-lt false out h = ground (arith, length-append out (b'|' ∷ []))

  written-lt :
      (out val : List ℕ)
      → length out < buf_size
      → length (out ++ escape_field (buf_size - length out) val) < buf_size
  written-lt out val h = omega (
    arith,
    length-append out (escape_field (buf_size - length out) val),
    length-escape_field (buf_size - length out) val (omega arith),
  )

  write_fields-lt :
      (card : List ℕ) (first : Bool) (out : List ℕ) (sels : List Selected)
      → length out < buf_size
      → length (write_fields env lib store primary buf_size card first out sels) < buf_size
  unfolding write_fields
  write_fields-lt card first out [] h = h
  write_fields-lt card first out (s ∷ ss) h =
      let barred =
        if first then out else if ltb (length out + 1) buf_size then out ++ (b'|' ∷ []) else out in
      let text = selected_text env lib store primary card s in
      if_intro (λ (r : List ℕ). length r < buf_size) (ltb (length out + 100) buf_size)
        (λ _.
          write_fields-lt card false (barred ++ escape_field (buf_size - length barred) text) ss
            (written-lt barred text (barred-lt first out h)))
        (λ _. h)

  end_row-lt :
      (out : List ℕ)
      → length out < buf_size
      → length (end_row env lib store primary buf_size out) < buf_size
  unfolding end_row
  end_row-lt out h = ground (arith, length-append out (13 ∷ 10 ∷ []))

  IsIn : List Predicate → List Selected → List ℕ → ℕ → List ℕ → Type 0
  IsIn preds sels ks left out =
      (length (write_rows env lib store primary buf_size preds sels ks left out).0 < buf_size)
      × ((write_rows env lib store primary buf_size preds sels ks left out).1 ≤ left)

  write_rows-IsIn :
      (preds : List Predicate) (sels : List Selected) (ks : List ℕ) (left : ℕ) (out : List ℕ)
      → length out < buf_size
      → IsIn preds sels ks left out
  unfolding write_rows IsIn
  write_rows-IsIn preds sels [] left out h = (h, omega arith)
  write_rows-IsIn preds sels (k ∷ ks) zero out h = (h, omega arith)
  write_rows-IsIn preds sels (k ∷ ks) (suc left) out h =
      let skip = write_rows-IsIn preds sels ks (suc left) out h in
      elim (Option-cases (env.get_copy store k 512)) [
        | inl e ↦ rw (e, write_rows) skip
        | inr (card, e) ↦
            let row =
              end_row env lib store primary buf_size
                (write_fields env lib store primary buf_size card true out sels) in
            let rest = write_rows-IsIn preds sels ks left row (
              end_row-lt (write_fields env lib store primary buf_size card true out sels)
                (write_fields-lt card true out sels h)) in
            rw (e, write_rows)
              (if_intro (λ (r : List ℕ × ℕ). (length r.0 < buf_size) × (r.1 ≤ suc left))
                (row_passes lib card preds) (λ _. (rest.0, omega (arith, rest.1))) (λ _. skip))
      ]

  -- Into a buffer that is not empty the scan writes fewer bytes than it has, so that the final 0 fits,
  -- and counts at most 100 rows.
  pub scan_rows_bounded :
      (preds : List Predicate) (sels : List Selected)
      → 0 < buf_size
      → (length (scan_rows env lib store primary buf_size preds sels).0 < buf_size)
        × ((scan_rows env lib store primary buf_size preds sels).1 ≤ 100)
  unfolding scan_rows IsIn
  scan_rows_bounded preds sels h =
      write_rows-IsIn preds sels (env.range store (primary.ord * 2 ^ 22 % 2 ^ 32) 0xFFC0_0000 256)
        100 [] h
