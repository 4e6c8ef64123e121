-- ===== src/Types/Conversion/Laws.antt =====
-- Converting twice for a column is converting once; and what becomes of large integers.
use sqlite_mem.Prelude.{
  true, false, Option, none, some, ◌≡◌, refl, sym, ap, ◌∙◌, inl, inr, Bool-cases, Option-cases,
}
use sqlite_mem.Prelude.Int.{ℤ, pos}
use sqlite_mem.Types.Value.{
  Real, nan, plus_infinity, minus_infinity, minus_zero, finite, SqlValue, null, integer, bigint,
  float, real, text, json_text, blob, Affinity, text_affinity, numeric_affinity, integer_affinity,
  real_affinity, blob_affinity,
}
use sqlite_mem.Types.Conversion.{
  Numbers, is_safe, canonical, number_value, coerce_to_number, whole_or_number, or_kept, to_text,
  to_integer_column, to_real_column, to_numeric_column, apply_affinity,
}

-- What the code relies on: the integer that a double is has that double's value, and Number(z) is
-- never -0.
pub record IsExact {R : Type 0} (h : Numbers R) : Type 0 where
  pub same_value :
      (n : Real R) (z : ℤ) → h.integral n ≡ some z → h.doubles.of_integer z ≡ canonical h n
  pub integral_canonical : (n : Real R) → h.integral (canonical h n) ≡ h.integral n
  pub canonical_integer : (z : ℤ) → canonical h (h.doubles.of_integer z) ≡ h.doubles.of_integer z

module _ {R : Type 0} (h : Numbers R) (x : IsExact h) where
  pub canonical_twice : (n : Real R) → canonical h (canonical h n) ≡ canonical h n
  canonical_twice nan = refl
  canonical_twice plus_infinity = refl
  canonical_twice minus_infinity = refl
  canonical_twice minus_zero = x.canonical_integer (pos 0)
  canonical_twice (finite r) = refl

  pub broken_number :
      (n : Real R) → h.integral n ≡ none → whole_or_number h n ≡ number_value h (canonical h n)
  broken_number n e = rw (e, whole_or_number) refl

  pub small_number :
      (n : Real R) (z : ℤ)
      → h.integral n ≡ some z
      → is_safe z ≡ true
      → whole_or_number h n ≡ integer z
  small_number n z e small = rw (e, whole_or_number, small) refl

  pub large_number :
      (n : Real R) (z : ℤ)
      → h.integral n ≡ some z
      → is_safe z ≡ false
      → whole_or_number h n ≡ number_value h (canonical h n)
  large_number n z e large = rw (e, whole_or_number, large) refl

  whole_or_number-canonical : (n : Real R) → whole_or_number h (canonical h n) ≡ whole_or_number h n
  whole_or_number-canonical n =
      let same = x.integral_canonical n in
      elim (Option-cases (h.integral n)) [
        | inl broken ↦
            broken_number (canonical h n) (same ∙ broken)
            ∙ ap (number_value h) (canonical_twice n)
            ∙ sym (broken_number n broken)
        | inr (z, whole) ↦ elim (Bool-cases (is_safe z)) [
          | inl small ↦
              small_number (canonical h n) z (same ∙ whole) small
              ∙ sym (small_number n z whole small)
          | inr large ↦
              large_number (canonical h n) z (same ∙ whole) large
              ∙ ap (number_value h) (canonical_twice n)
              ∙ sym (large_number n z whole large)
        ]
      ]

  -- An integer that a double is, is read as that double.
  pub read_integer :
      (n : Real R) (z : ℤ)
      → h.integral n ≡ some z
      → canonical h (h.doubles.of_integer z) ≡ canonical h n
  read_integer n z e = ap (canonical h) (x.same_value n z e) ∙ canonical_twice n

  -- A conversion of numbers that gives the same for a double, for the integer that it is, and for the
  -- plain number.
  module _ (convert : SqlValue R → SqlValue R)
      (of_whole : (z : ℤ)
        → convert (integer z) ≡ whole_or_number h (canonical h (h.doubles.of_integer z)))
      (of_float : (n : Real R) → convert (float n) ≡ whole_or_number h (canonical h n)) where
    convert-number_value :
        (n : Real R) → convert (number_value h n) ≡ whole_or_number h (canonical h n)
    convert-number_value n = elim (Option-cases (h.integral n)) [
      | inl broken ↦ rw (broken, number_value) (of_float n)
      | inr (z, whole) ↦
          rw (whole, number_value) (of_whole z ∙ ap (whole_or_number h) (read_integer n z whole))
    ]

    convert-whole_or_number : (n : Real R) → convert (whole_or_number h n) ≡ whole_or_number h n
    convert-whole_or_number n = elim (Option-cases (h.integral n)) [
      | inl broken ↦
          ap convert (broken_number n broken)
          ∙ convert-number_value (canonical h n)
          ∙ ap (whole_or_number h) (canonical_twice n)
          ∙ whole_or_number-canonical n
      | inr (z, whole) ↦ elim (Bool-cases (is_safe z)) [
        | inl small ↦
            ap convert (small_number n z whole small)
            ∙ of_whole z
            ∙ ap (whole_or_number h) (read_integer n z whole)
            ∙ whole_or_number-canonical n
        | inr large ↦
            ap convert (large_number n z whole large)
            ∙ convert-number_value (canonical h n)
            ∙ ap (whole_or_number h) (canonical_twice n)
            ∙ whole_or_number-canonical n
      ]
    ]

  integer_column_number :
      (n : Real R) → to_integer_column h (whole_or_number h n) ≡ whole_or_number h n
  unfolding to_integer_column
  integer_column_number = convert-whole_or_number (to_integer_column h) (λ z. refl) (λ n. refl)

  numeric_column_number :
      (n : Real R) → to_numeric_column h (whole_or_number h n) ≡ whole_or_number h n
  unfolding to_numeric_column
  numeric_column_number = convert-whole_or_number (to_numeric_column h) (λ z. refl) (λ n. refl)

  real_column_number : (n : Real R) → to_real_column h (real (canonical h n)) ≡ real (canonical h n)
  unfolding to_real_column
  real_column_number n = ap real (canonical_twice n)

  -- A conversion that keeps what is no number, and of which the numbers that it makes are kept.
  column_twice :
      (f : SqlValue R → SqlValue R) (convert : Real R → SqlValue R)
      → ((n : Real R) → f (convert n) ≡ convert n)
      → (v : SqlValue R) (read : Option (Real R)) → f v ≡ or_kept v convert read
      → f (f v) ≡ f v
  column_twice f convert fixed v none e = ap f e
  column_twice f convert fixed v (some n) e = ap f e ∙ fixed n ∙ sym e

  to_text_twice : (v : SqlValue R) → to_text h (to_text h v) ≡ to_text h v
  unfolding to_text
  to_text_twice null = refl
  to_text_twice (integer z) = refl
  to_text_twice (bigint z) = refl
  to_text_twice (float r) = refl
  to_text_twice (real r) = refl
  to_text_twice (text s) = refl
  to_text_twice (json_text s) = refl
  to_text_twice (blob b) = refl

  integer_column_twice :
      (v : SqlValue R) → to_integer_column h (to_integer_column h v) ≡ to_integer_column h v
  unfolding to_integer_column
  integer_column_twice null = refl
  integer_column_twice (bigint z) = refl
  integer_column_twice (blob b) = refl
  integer_column_twice v =
      column_twice (to_integer_column h) (whole_or_number h) integer_column_number v
        (coerce_to_number h v) refl

  numeric_column_twice :
      (v : SqlValue R) → to_numeric_column h (to_numeric_column h v) ≡ to_numeric_column h v
  unfolding to_numeric_column
  numeric_column_twice null = refl
  numeric_column_twice (blob b) = refl
  numeric_column_twice v =
      column_twice (to_numeric_column h) (whole_or_number h) numeric_column_number v
        (coerce_to_number h v) refl

  real_column_twice : (v : SqlValue R) → to_real_column h (to_real_column h v) ≡ to_real_column h v
  unfolding to_real_column
  real_column_twice null = refl
  real_column_twice (blob b) = refl
  real_column_twice v =
      column_twice (to_real_column h) (λ n. real (canonical h n)) real_column_number v
        (coerce_to_number h v) refl

  -- A value that was converted for a column of any affinity is not changed by converting it again.
  pub apply_affinity_twice :
      (v : SqlValue R) (a : Affinity)
      → apply_affinity h (apply_affinity h v a) a ≡ apply_affinity h v a
  unfolding apply_affinity
  apply_affinity_twice v text_affinity = to_text_twice v
  apply_affinity_twice v integer_affinity = integer_column_twice v
  apply_affinity_twice v real_affinity = real_column_twice v
  apply_affinity_twice v numeric_affinity = numeric_column_twice v
  apply_affinity_twice v blob_affinity = refl
