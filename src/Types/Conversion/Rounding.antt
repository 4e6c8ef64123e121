-- ===== src/Types/Conversion/Rounding.antt =====
-- What a comparison with an INTEGER column makes of integers that doubles do not tell apart.
use Prim.Native.Nat.{Ordering}
use sqlite_mem.Prelude.{false, some, ◌≡◌, refl, sym, ap, ◌∙◌, inl, inr, Bool-cases, Option-cases}
use sqlite_mem.Prelude.Int.{ℤ}
use sqlite_mem.Types.Value.{
  Real, SqlValue, null, integer, bigint, float, real, text, json_text, blob, is_null,
}
use sqlite_mem.Types.Comparison.{Numeric, double, number, compare_less, compare_sql, comparable}
use sqlite_mem.Types.Comparison.Laws.{IsOrdered}
use sqlite_mem.Types.Conversion.{
  Numbers, is_safe, canonical, number_value, whole_or_number, to_numeric_column,
}
use sqlite_mem.Types.Conversion.Laws.{
  IsExact, canonical_twice, broken_number, small_number, large_number,
}

module _ {R : Type 0} (h : Numbers R) (o : IsOrdered h.doubles) (x : IsExact h) where
  comparable-number_value :
      (n : Real R)
      → comparable h.doubles (number_value h (canonical h n)) ≡ number (double (canonical h n))
  comparable-number_value n = elim (Option-cases (h.integral (canonical h n))) [
    | inl broken ↦ rw (broken, number_value) refl
    | inr (z, whole) ↦
        rw (whole, number_value)
          (ap (λ m. number (double m))
            (x.same_value (canonical h n) z whole ∙ canonical_twice h x n))
  ]

  -- A number that was made from a double is compared as that double.
  comparable-whole_or_number :
      (n : Real R) → comparable h.doubles (whole_or_number h n) ≡ number (double (canonical h n))
  comparable-whole_or_number n = elim (Option-cases (h.integral n)) [
    | inl broken ↦
        ap (comparable h.doubles) (broken_number h x n broken) ∙ comparable-number_value n
    | inr (z, whole) ↦ elim (Bool-cases (is_safe z)) [
      | inl small ↦
          ap (comparable h.doubles) (small_number h x n z whole small)
          ∙ ap (λ m. number (double m)) (x.same_value n z whole)
      | inr large ↦
          ap (comparable h.doubles) (large_number h x n z whole large) ∙ comparable-number_value n
    ]
  ]

  is_null-number :
      (v : SqlValue R) (n : Numeric R) → comparable h.doubles v ≡ number n → is_null v ≡ false
  is_null-number null n e = cc
  is_null-number (integer z) n e = refl
  is_null-number (bigint z) n e = refl
  is_null-number (float r) n e = refl
  is_null-number (real r) n e = refl
  is_null-number (text s) n e = refl
  is_null-number (json_text s) n e = refl
  is_null-number (blob b) n e = refl

  compare_less_same : (r : Real R) → compare_less h.doubles r r ≡ Ordering.eq
  unfolding compare_less
  compare_less_same r = rw (o.irreflexive r) refl

  compare_sql-number :
      (a : ℤ) (v : SqlValue R) (r : Real R)
      → comparable h.doubles v ≡ number (double r)
      → compare_sql h.doubles (bigint a) v
        ≡ some (compare_less h.doubles (h.doubles.of_integer a) r)
  unfolding compare_sql
  compare_sql-number a v r e = rw (is_null-number v (double r) e, e) refl

  -- A BigInt that was converted for a comparison with an INTEGER column equals all BigInts that Number
  -- rounds to the same double.
  pub numeric_column_rounds :
      (a b : ℤ)
      → h.doubles.of_integer a ≡ h.doubles.of_integer b
      → compare_sql h.doubles (bigint a) (to_numeric_column h (bigint b)) ≡ some Ordering.eq
  unfolding to_numeric_column
  numeric_column_rounds a b e =
      let n = h.doubles.of_integer b in
      compare_sql-number a (whole_or_number h n) (canonical h n) (comparable-whole_or_number n)
      ∙ ap some (
          ap (compare_less h.doubles (h.doubles.of_integer a)) (x.canonical_integer b ∙ sym e)
          ∙ compare_less_same (h.doubles.of_integer a))
