-- ===== src/Types/Comparison.antt =====
-- types/value.ts: `compareSql`, the order of ORDER BY, of inequalities and of the indexes.
pub mod Units
pub mod Laws
pub mod Order
pub mod Plain
use Prim.Native.Nat.{compare, Ordering}
use sqlite_mem.Prelude.{
  ℕ, Text, Bool, true, false, ◌&&◌, ◌||◌, Option, none, some, List, [], ◌∷◌, if◌then◌else◌, ltb,
}
use sqlite_mem.Prelude.Int.{ℤ, pos, negsuc}
use sqlite_mem.Types.Value.{
  Real, nan, plus_infinity, minus_infinity, minus_zero, finite, SqlValue, null, integer, bigint,
  float, real, text, json_text, blob, is_null,
}

-- What JavaScript does with doubles: `<`, and Number(z) of a BigInt, which rounds. An integer that is
-- a number is the double that this gives.
pub record Doubles (R : Type 0) : Type 0 where
  pub less : Real R → Real R → Bool
  pub of_integer : ℤ → Real R

-- Number.isNaN
abbrev pub is_nan : {R : Type 0} → Real R → Bool
is_nan nan = true
is_nan _ = false

-- BigInts, compared exactly.
abbrev pub compare_ℤ : ℤ → ℤ → Ordering
compare_ℤ (pos a) (pos b) = compare a b
compare_ℤ (pos a) (negsuc b) = Ordering.gt
compare_ℤ (negsuc a) (pos b) = Ordering.lt
compare_ℤ (negsuc a) (negsuc b) = compare b a

-- Strings are compared by their code units, and blobs by their bytes.
unfoldable pub compare_units : List ℕ → List ℕ → Ordering
compare_units [] [] = Ordering.eq
compare_units [] (y ∷ ys) = Ordering.lt
compare_units (x ∷ xs) [] = Ordering.gt
compare_units (x ∷ xs) (y ∷ ys) = elim (compare x y) [
  | Ordering.lt ↦ Ordering.lt
  | Ordering.gt ↦ Ordering.gt
  | Ordering.eq ↦ compare_units xs ys
]

-- A number, as `compareSql` reads it.
pub data Numeric (R : Type 0) : Type 0 where
  exact : ℤ → Numeric R
  double : Real R → Numeric R

-- `comparisonClass`, each class with what is compared within it.
pub data Comparable (R : Type 0) : Type 0 where
  missing : Comparable R
  number : Numeric R → Comparable R
  words : Text → Comparable R
  bytes : List ℕ → Comparable R

abbrev pub comparison_class : {R : Type 0} → Comparable R → ℕ
comparison_class missing = 0
comparison_class (number n) = 1
comparison_class (words s) = 2
comparison_class (bytes b) = 3

module _ {R : Type 0} (d : Doubles R) where
  abbrev pub comparable : SqlValue R → Comparable R
  comparable null = missing
  comparable (integer z) = number (double (d.of_integer z))
  comparable (bigint z) = number (exact z)
  comparable (float r) = number (double r)
  comparable (real r) = number (double r)
  comparable (text s) = words s
  comparable (json_text s) = words s
  comparable (blob b) = bytes b

  -- if (left < right) return -1; if (left > right) return 1; return 0;
  unfoldable pub compare_less : Real R → Real R → Ordering
  compare_less a b =
      if d.less a b then Ordering.lt else if d.less b a then Ordering.gt else Ordering.eq

  -- Two numbers of which none is a BigInt: NaN is above the others.
  unfoldable pub compare_doubles : Real R → Real R → Ordering
  unfolding compare_less
  compare_doubles a b =
      if is_nan a && is_nan b
      then Ordering.eq
      else if is_nan a
      then Ordering.gt
      else if is_nan b
      then Ordering.lt
      else compare_less a b

  unfoldable pub compare_numbers : Numeric R → Numeric R → Ordering
  unfolding compare_less compare_doubles
  compare_numbers (exact a) (exact b) = compare_ℤ a b
  compare_numbers (exact a) (double b) = compare_less (d.of_integer a) b
  compare_numbers (double a) (exact b) = compare_less a (d.of_integer b)
  compare_numbers (double a) (double b) = compare_doubles a b

  unfoldable pub compare_comparable : Comparable R → Comparable R → Ordering
  unfolding compare_numbers compare_units
  compare_comparable (number a) (number b) = compare_numbers a b
  compare_comparable (words s) (words t) = compare_units s t
  compare_comparable (bytes s) (bytes t) = compare_units s t
  compare_comparable a b =
      if ltb (comparison_class a) (comparison_class b) then Ordering.lt else Ordering.gt

  -- `compareSql`: null has no order.
  unfoldable pub compare_sql : SqlValue R → SqlValue R → Option Ordering
  unfolding compare_comparable
  compare_sql a b =
      if is_null a || is_null b
      then none
      else some (compare_comparable (comparable a) (comparable b))
