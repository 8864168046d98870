-- ===== src/Query/Plan/Order.antt =====
-- The order in which src/query.c tests the conditions, and the rows that pass.
use picowal.Prelude.{
  ℕ, zero, suc, ◌≡◌, refl, ap, ◌∙◌, Bool, true, false, ◌&&◌, List, [], ◌∷◌, length, ltb, arith,
  Bool-cases, inl, inr,
}
use picowal.Query.Field.{Decimal}
use picowal.Query.Fanout.{Fanout}
use picowal.Query.Plan.{
  Predicate, sort_pass, sort_costs, with_costs, without_costs, plan_predicates, predicate_passes,
  row_passes,
}

length-sort_pass :
    (x : ℕ × Predicate) (xs : List (ℕ × Predicate)) → length (sort_pass x xs).1 ≡ length xs
unfolding sort_pass
length-sort_pass x [] = refl
length-sort_pass x (y ∷ ys) = ground (arith, length-sort_pass x ys, length-sort_pass y ys)

module _ (lib : Decimal) (card : List ℕ) where
  abbrev passes : ℕ × Predicate → Bool
  passes x = predicate_passes lib card x.1

  abbrev all_pass : List (ℕ × Predicate) → Bool
  all_pass xs = row_passes lib card (without_costs xs)

  swap_and : (a b c : Bool) → (a && (b && c)) ≡ (b && (a && c))
  swap_and true b c = refl
  swap_and false true c = refl
  swap_and false false c = refl

  sort_pass-passes :
      (x : ℕ × Predicate) (xs : List (ℕ × Predicate))
      → (passes (sort_pass x xs).0 && all_pass (sort_pass x xs).1) ≡ (passes x && all_pass xs)
  unfolding sort_pass row_passes without_costs
  sort_pass-passes x [] = refl
  sort_pass-passes x (y ∷ ys) = elim (Bool-cases (ltb y.0 x.0)) [
    | inl e ↦
        rw (e, sort_pass)
          (swap_and (passes (sort_pass y ys).0) (passes x) (all_pass (sort_pass y ys).1)
            ∙ ap (λ b. passes x && b) (sort_pass-passes y ys))
    | inr e ↦
        rw (e, sort_pass)
          (swap_and (passes (sort_pass x ys).0) (passes y) (all_pass (sort_pass x ys).1)
            ∙ ap (λ b. passes y && b) (sort_pass-passes x ys)
            ∙ swap_and (passes y) (passes x) (all_pass ys))
  ]

  sort_costs-passes : (n : ℕ) (xs : List (ℕ × Predicate)) → all_pass (sort_costs n xs) ≡ all_pass xs
  unfolding sort_costs row_passes without_costs
  sort_costs-passes zero xs = refl
  sort_costs-passes (suc n) [] = refl
  sort_costs-passes (suc n) (x ∷ xs) =
      ap (λ b. passes (sort_pass x xs).0 && b) (sort_costs-passes n (sort_pass x xs).1)
      ∙ sort_pass-passes x xs

  without-with_costs :
      (fanouts : List Fanout) (pack est_rows : ℕ) (ps : List Predicate)
      → without_costs (with_costs fanouts pack est_rows ps) ≡ ps
  unfolding without_costs with_costs
  without-with_costs fanouts pack est_rows [] = refl
  without-with_costs fanouts pack est_rows (p ∷ ps) =
      ap (λ qs. p ∷ qs) (without-with_costs fanouts pack est_rows ps)

  -- Whatever the estimates are, a card passes the conditions in the order of the plan if and only if
  -- it passes them as they were given.
  pub row_passes-plan :
      (fanouts : List Fanout) (pack est_rows : ℕ) (ps : List Predicate)
      → row_passes lib card (plan_predicates fanouts pack est_rows ps) ≡ row_passes lib card ps
  unfolding plan_predicates
  row_passes-plan fanouts pack est_rows ps = elim (Bool-cases (ltb 1 (length ps))) [
    | inr e ↦ rw (e, plan_predicates) refl
    | inl e ↦
        rw (e, plan_predicates)
          (sort_costs-passes (length ps) (with_costs fanouts pack est_rows ps)
            ∙ ap (row_passes lib card) (without-with_costs fanouts pack est_rows ps))
  ]
