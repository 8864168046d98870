-- ===== src/Query/Compare.antt =====
-- The comparisons of src/query.c.
pub mod Direct
use mathlib.Core.Bool.{not}
use picowal.Prelude.{
  ℕ, Bool, true, false, ◌&&◌, ◌||◌, List, [], ◌∷◌, take, ltb, ◌==◌, if◌then◌else◌,
}
use picowal.Query.Text.{
  QueryOp, eq, ne, gt, lt, ge, le, is_in, not_in, same_text, less_text, stretches, filled,
  skip_each,
}
use picowal.Query.Field.{ℤ, pos, negsuc, Decimal}

unfoldable pub text_in : List ℕ → List (List ℕ) → Bool
text_in actual [] = false
text_in actual (tok ∷ toks) = same_text actual tok || text_in actual toks

-- The tokens of `strtok` between commas, without the spaces before them; the buffer holds 63
-- characters.
unfoldable pub list_tokens : List ℕ → List (List ℕ)
list_tokens expected = skip_each (filled (stretches b',' (take 63 expected)))

unfoldable pub compare_str : List ℕ → QueryOp → List ℕ → Bool
compare_str actual eq expected = same_text actual expected
compare_str actual ne expected = not (same_text actual expected)
compare_str actual gt expected = less_text expected actual
compare_str actual lt expected = less_text actual expected
compare_str actual ge expected = not (less_text actual expected)
compare_str actual le expected = not (less_text expected actual)
compare_str actual is_in expected = text_in actual (list_tokens expected)
compare_str actual not_in expected = not (text_in actual (list_tokens expected))

unfoldable pub same_int : ℤ → ℤ → Bool
same_int (pos m) (pos n) = m == n
same_int (pos m) (negsuc n) = false
same_int (negsuc m) (pos n) = false
same_int (negsuc m) (negsuc n) = m == n

unfoldable pub less_int : ℤ → ℤ → Bool
less_int (pos m) (pos n) = ltb m n
less_int (pos m) (negsuc n) = false
less_int (negsuc m) (pos n) = true
less_int (negsuc m) (negsuc n) = ltb n m

module _ (lib : Decimal) where
  unfoldable pub compare_int : List ℕ → QueryOp → List ℕ → Bool
  compare_int actual eq expected = same_int (lib.strtol actual) (lib.strtol expected)
  compare_int actual ne expected = not (same_int (lib.strtol actual) (lib.strtol expected))
  compare_int actual gt expected = less_int (lib.strtol expected) (lib.strtol actual)
  compare_int actual lt expected = less_int (lib.strtol actual) (lib.strtol expected)
  compare_int actual ge expected = not (less_int (lib.strtol actual) (lib.strtol expected))
  compare_int actual le expected = not (less_int (lib.strtol expected) (lib.strtol actual))
  compare_int actual is_in expected = compare_str actual is_in expected
  compare_int actual not_in expected = compare_str actual not_in expected

  -- The buffer for the text of the number holds 15 characters.
  unfoldable pub compare_int_direct : ℤ → QueryOp → List ℕ → Bool
  compare_int_direct actual eq expected = same_int actual (lib.strtol expected)
  compare_int_direct actual ne expected = not (same_int actual (lib.strtol expected))
  compare_int_direct actual gt expected = less_int (lib.strtol expected) actual
  compare_int_direct actual lt expected = less_int actual (lib.strtol expected)
  compare_int_direct actual ge expected = not (less_int actual (lib.strtol expected))
  compare_int_direct actual le expected = not (less_int (lib.strtol expected) actual)
  compare_int_direct actual is_in expected = compare_str (take 15 (lib.print actual)) is_in expected
  compare_int_direct actual not_in expected =
      compare_str (take 15 (lib.print actual)) not_in expected
