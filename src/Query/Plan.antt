-- ===== src/Query/Plan.antt =====
-- The conditions of a query in src/query.c as `query_execute` plans and tests them. The estimate of a
-- pack's rows, 10 to the power of its cardinality bucket in 32 bits, is an argument.
pub mod Order
use picowal.Prelude.{
  ℕ, zero, suc, ◌+◌, ◌-◌, ◌*◌, ◌/◌, ◌%◌, ◌^◌, Bool, true, false, ◌&&◌, Option, none, some, List, [],
  ◌∷◌, length, ltb, leb, ◌==◌, if◌then◌else◌,
}
use picowal.Query.Text.{QueryOp, eq, ne, gt, lt, ge, le, is_in, not_in}
use picowal.Query.Field.{Decimal, extract_field_str, extract_field_int32, is_numeric_type}
use picowal.Query.Compare.{compare_str, compare_int_direct}
use picowal.Query.Fanout.{Fanout, fanout_estimate}

-- w_ords, w_types, w_ops and w_values at one index.
pub record Predicate : Type 0 where
  pub ord : ℕ
  pub type : ℕ
  pub op : QueryOp
  pub value : List ℕ

-- One more than there are commas, in a byte.
unfoldable pub count_values : List ℕ → ℕ → ℕ
count_values [] nvals = nvals
count_values (c ∷ cs) nvals =
    let more = count_values cs ((nvals + 1) % 256) in
    let same = count_values cs nvals in if c == b',' then more else same

unfoldable pub lookup_cost : ℕ → ℕ → Predicate → ℕ
lookup_cost est_rows fo p =
    let one = if ltb 0 fo then fo else est_rows / 4 in
    elim p.op [ eq ↦ one | is_in ↦ one * count_values p.value 1 % 2 ^ 32 | _ ↦ est_rows / 2 ]

unfoldable pub plain_cost : ℕ → Predicate → ℕ
plain_cost est_rows p =
    let listed = est_rows * count_values p.value 1 % 2 ^ 32 / 10 + 1 in
    elim p.op [
      | eq ↦ est_rows / 10 + 1
      | is_in ↦ listed
      | not_in ↦ listed
      | ne ↦ est_rows
      | _ ↦ est_rows / 2 + 1
    ]

-- The estimated cost of a condition of the pack.
unfoldable pub predicate_cost : List Fanout → ℕ → ℕ → Predicate → ℕ
predicate_cost fanouts pack est_rows p =
    if p.type == 0x12
    then lookup_cost est_rows (fanout_estimate fanouts pack p.ord) p
    else plain_cost est_rows p

-- The inner loop of the sort: the entry at `i`, and those behind it, each that costs less taken
-- forward in its turn.
unfoldable pub sort_pass :
    ℕ × Predicate → List (ℕ × Predicate) → (ℕ × Predicate) × List (ℕ × Predicate)
sort_pass x [] = (x, [])
sort_pass x (y ∷ ys) =
    let swapped = sort_pass y ys in
    let kept = sort_pass x ys in
    if ltb y.0 x.0 then (swapped.0, x ∷ swapped.1) else (kept.0, y ∷ kept.1)

-- The outer loop; the first argument is the number of entries.
unfoldable pub sort_costs : ℕ → List (ℕ × Predicate) → List (ℕ × Predicate)
sort_costs zero xs = xs
sort_costs (suc n) [] = []
sort_costs (suc n) (x ∷ xs) = let (first, rest) = sort_pass x xs in first ∷ sort_costs n rest

unfoldable pub with_costs : List Fanout → ℕ → ℕ → List Predicate → List (ℕ × Predicate)
with_costs fanouts pack est_rows [] = []
with_costs fanouts pack est_rows (p ∷ ps) =
    (predicate_cost fanouts pack est_rows p, p) ∷ with_costs fanouts pack est_rows ps

unfoldable pub without_costs : List (ℕ × Predicate) → List Predicate
without_costs [] = []
without_costs (x ∷ xs) = x.1 ∷ without_costs xs

-- The conditions in the order in which they are tested.
unfoldable pub plan_predicates : List Fanout → ℕ → ℕ → List Predicate → List Predicate
plan_predicates fanouts pack est_rows ps =
    let sorted = without_costs (sort_costs (length ps) (with_costs fanouts pack est_rows ps)) in
    if ltb 1 (length ps) then sorted else ps

module _ (lib : Decimal) where
  -- One condition on a card.
  unfoldable pub predicate_passes : List ℕ → Predicate → Bool
  predicate_passes card p =
      let by_number : Bool = elim (extract_field_int32 card p.ord p.type) [
        | some z ↦ compare_int_direct lib z p.op p.value
        | none ↦ false
      ] in
      if is_numeric_type p.type
      then by_number
      else compare_str (extract_field_str lib card p.ord p.type 64).1 p.op p.value

  -- The loop over the conditions, which ends at the first that fails.
  unfoldable pub row_passes : List ℕ → List Predicate → Bool
  row_passes card [] = true
  row_passes card (p ∷ ps) = predicate_passes card p && row_passes card ps
