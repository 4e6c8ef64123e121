-- ===== src/Expressions/Operators.antt =====
-- expressions/eval.ts: the comparison operators, AND and OR. types/value.ts: truth.
pub mod Laws
pub mod Rounding
mod Runs
use Prim.Native.Nat.{Ordering}
use sqlite_mem.Prelude.{
  ℕ, Text, Bool, true, false, not, ◌&&◌, ◌||◌, Option, none, some, List, [], ◌∷◌, if◌then◌else◌,
}
use sqlite_mem.Prelude.Int.{ℤ, pos, eqb_ℤ}
use sqlite_mem.Errors.{Result, ok, err, ◌>>=◌}
use sqlite_mem.Types.Value.{
  Real, SqlValue, null, integer, bigint, float, real, text, json_text, blob, is_null, Affinity,
}
use sqlite_mem.Types.Comparison.{is_nan, compare_sql}
use sqlite_mem.Types.Conversion.{Numbers, apply_comparison_affinity}
use sqlite_mem.Types.{compare_with_collation}

-- `booleanValue`
abbrev pub boolean_value : {R : Type 0} → Bool → SqlValue R
boolean_value true = integer (pos 1)
boolean_value false = integer (pos 0)

-- The operators that `compareResult` knows; `=` and `<>` have a second spelling each.
pub data ComparisonOp : Type 0 where
  is is_not is_distinct_from is_not_distinct_from : ComparisonOp
  equal equal_equal not_equal angle_not_equal : ComparisonOp
  less less_equal greater greater_equal : ComparisonOp

abbrev pub holds : ComparisonOp → Ordering → Bool
holds equal Ordering.eq = true
holds equal _ = false
holds equal_equal Ordering.eq = true
holds equal_equal _ = false
holds not_equal Ordering.eq = false
holds not_equal _ = true
holds angle_not_equal Ordering.eq = false
holds angle_not_equal _ = true
holds less Ordering.lt = true
holds less _ = false
holds less_equal Ordering.gt = false
holds less_equal _ = true
holds greater Ordering.gt = true
holds greater _ = false
holds greater_equal Ordering.lt = false
holds greater_equal _ = true
holds is o = false
holds is_not o = false
holds is_distinct_from o = false
holds is_not_distinct_from o = false

-- IS and its kin: whether it asks for equality, or for the opposite.
abbrev pub asks_equal : ComparisonOp → Option Bool
asks_equal is = some true
asks_equal is_not_distinct_from = some true
asks_equal is_not = some false
asks_equal is_distinct_from = some false
asks_equal op = none

abbrev pub is_eq : Option Ordering → Bool
is_eq (some Ordering.eq) = true
is_eq _ = false

abbrev pub same_bool : Bool → Bool → Bool
same_bool true b = b
same_bool false b = not b

abbrev pub ordered_value : {R : Type 0} → ComparisonOp → Option Ordering → SqlValue R
ordered_value op none = null
ordered_value op (some o) = boolean_value (holds op o)

abbrev pub truth_value : {R : Type 0} → Option Bool → SqlValue R
truth_value none = null
truth_value (some b) = boolean_value b

-- What AND and OR are of the truths, the left one not deciding alone.
abbrev pub and_truths : Option Bool → Option Bool → Option Bool
and_truths left (some false) = some false
and_truths none right = none
and_truths left none = none
and_truths left right = some true

abbrev pub or_truths : Option Bool → Option Bool → Option Bool
or_truths left (some true) = some true
or_truths none right = none
or_truths left none = none
or_truths left right = some false

module _ {R : Type 0} (h : Numbers R) (to_upper : Text → Text) where
  -- collation ? compareWithCollation(left, right, collation) : compareSql(left, right)
  unfoldable pub compare_collated : SqlValue R → SqlValue R → Option Text → Result (Option Ordering)
  unfolding compare_sql compare_with_collation
  compare_collated left right none = ok (compare_sql h.doubles left right)
  compare_collated left right (some []) = ok (compare_sql h.doubles left right)
  compare_collated left right (some (c ∷ cs)) =
      compare_with_collation to_upper h.doubles left right (c ∷ cs)

  -- `equal`: two nulls are equal here, and a null is equal to nothing else.
  unfoldable pub is_same : SqlValue R → SqlValue R → Option Text → Result Bool
  unfolding compare_collated
  is_same left right collation =
      if is_null left || is_null right
      then ok (is_null left && is_null right)
      else compare_collated left right collation >>= λ comparison. ok (is_eq comparison)

  -- `compareResult`, behind the affinities.
  unfoldable pub compare_converted :
      ComparisonOp → SqlValue R → SqlValue R → Option Text → Result (SqlValue R)
  unfolding is_same compare_collated
  compare_converted op left right collation = elim (asks_equal op) [
    | some wanted ↦
        is_same left right collation >>= λ equal. ok (boolean_value (same_bool wanted equal))
    | none ↦
        compare_collated left right collation >>= λ comparison. ok (ordered_value op comparison)
  ]

  -- `compareResult`
  unfoldable pub compare_result :
      ComparisonOp
      → SqlValue R
      → SqlValue R
      → Option Text
      → Option Affinity
      → Option Affinity
      → Result (SqlValue R)
  unfolding apply_comparison_affinity compare_converted
  compare_result op left right collation la ra =
      let (l, r) = apply_comparison_affinity h left right la ra in
      compare_converted op l r collation

  -- n !== 0 && !Number.isNaN(n)
  abbrev pub is_zero : Real R → Bool
  is_zero r = elim (h.integral r) [ none ↦ false | some z ↦ eqb_ℤ z (pos 0) ]

  -- `isTruthySql`; `atof` is the number at the start of a text (types/sqlite-atof.ts).
  abbrev pub number_truth : Real R → Bool
  number_truth r = not (is_zero r) && not (is_nan r)

  unfoldable pub is_truthy_sql : (Text → Real R) → SqlValue R → Option Bool
  is_truthy_sql atof null = none
  is_truthy_sql atof (real r) = some (not (is_zero r))
  is_truthy_sql atof (integer z) = some (not (eqb_ℤ z (pos 0)))
  is_truthy_sql atof (float r) = some (number_truth r)
  is_truthy_sql atof (bigint z) = some (not (eqb_ℤ z (pos 0)))
  is_truthy_sql atof (text s) = some (number_truth (atof s))
  is_truthy_sql atof (json_text s) = some (number_truth (atof s))
  is_truthy_sql atof (blob b) = some (number_truth (atof (h.utf8_decode b)))

  -- `sqlAnd` and `sqlOr`: the right side is evaluated only if the left one does not decide.
  unfoldable pub sql_and :
      (Text → Real R) → SqlValue R → (Unit {0} → Result (SqlValue R)) → Result (SqlValue R)
  unfolding is_truthy_sql
  sql_and atof left right = elim (is_truthy_sql atof left) [
    | some false ↦ ok (boolean_value false)
    | other ↦ right tt >>= λ v. ok (truth_value (and_truths other (is_truthy_sql atof v)))
  ]

  unfoldable pub sql_or :
      (Text → Real R) → SqlValue R → (Unit {0} → Result (SqlValue R)) → Result (SqlValue R)
  unfolding is_truthy_sql
  sql_or atof left right = elim (is_truthy_sql atof left) [
    | some true ↦ ok (boolean_value true)
    | other ↦ right tt >>= λ v. ok (truth_value (or_truths other (is_truthy_sql atof v)))
  ]
