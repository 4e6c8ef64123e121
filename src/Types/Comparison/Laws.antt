-- ===== src/Types/Comparison/Laws.antt =====
-- `compareSql` is antisymmetric, and what is strictly below is so transitively.
use Prim.Native.Nat.{Ordering}
use sqlite_mem.Prelude.{
  true, false, some, ◌≡◌, ◌≢◌, refl, sym, ap, ◌∙◌, arith, inl, inr, Bool-cases,
}
use mathlib.Core.Option
use sqlite_mem.Prelude.Int.{ℤ}
use sqlite_mem.Types.Value.{
  Real, nan, SqlValue, null, integer, bigint, float, real, text, json_text, blob, is_null,
}
use sqlite_mem.Types.Comparison.{
  Doubles, is_nan, compare_ℤ, Numeric, exact, double, Comparable, missing, number, words, bytes,
  comparable, compare_less, compare_doubles, compare_numbers, compare_comparable, compare_sql,
}
use sqlite_mem.Types.Comparison.Units.{flip, compare_ℤ-flip, compare_ℤ_trans, compare_units-flip}

-- What the code relies on: `<` is a strict weak order of the doubles that are numbers, NaN is in no
-- order, and Number(z) is a number, and keeps the order of the integers.
pub record IsOrdered {R : Type 0} (d : Doubles R) : Type 0 where
  pub irreflexive : (a : Real R) → d.less a a ≡ false
  pub transitive : (a b c : Real R) → d.less a b ≡ true → d.less b c ≡ true → d.less a c ≡ true
  pub split :
      (a b c : Real R)
      → d.less a c ≡ true
      → is_nan b ≡ false
      → d.less a b ≡ false
      → d.less b c ≡ true
  pub nan_below : (a : Real R) → d.less nan a ≡ false
  pub nan_above : (a : Real R) → d.less a nan ≡ false
  pub of_integer_number : (z : ℤ) → is_nan (d.of_integer z) ≡ false
  pub of_integer_mono :
      (a b : ℤ) → d.less (d.of_integer a) (d.of_integer b) ≡ true → compare_ℤ a b ≡ Ordering.lt

module _ {R : Type 0} (d : Doubles R) (o : IsOrdered d) where
  asymmetric : (a b : Real R) → d.less a b ≡ true → d.less b a ≡ false
  asymmetric a b e = elim (Bool-cases (d.less b a)) [
    | inl both ↦ cc (o.irreflexive a, o.transitive a b a e both)
    | inr one ↦ one
  ]

  compare_less-flip : (a b : Real R) → compare_less d b a ≡ flip (compare_less d a b)
  unfolding compare_less
  compare_less-flip a b = ground (arith, asymmetric a b)

  compare_doubles-flip : (a b : Real R) → compare_doubles d b a ≡ flip (compare_doubles d a b)
  unfolding compare_doubles
  compare_doubles-flip a b = ground (arith, compare_less-flip a b)

  compare_numbers-flip : (a b : Numeric R) → compare_numbers d b a ≡ flip (compare_numbers d a b)
  unfolding compare_numbers
  compare_numbers-flip (exact a) (exact b) = compare_ℤ-flip a b
  compare_numbers-flip (exact a) (double b) = compare_less-flip (d.of_integer a) b
  compare_numbers-flip (double a) (exact b) = compare_less-flip a (d.of_integer b)
  compare_numbers-flip (double a) (double b) = compare_doubles-flip a b

  pub compare_comparable-flip :
      (a b : Comparable R)
      → a ≢ missing
      → b ≢ missing
      → compare_comparable d b a ≡ flip (compare_comparable d a b)
  unfolding compare_comparable
  compare_comparable-flip missing b h k = absurd (h refl)
  compare_comparable-flip (number a) missing h k = absurd (k refl)
  compare_comparable-flip (number a) (number b) h k = compare_numbers-flip a b
  compare_comparable-flip (number a) (words b) h k = refl
  compare_comparable-flip (number a) (bytes b) h k = refl
  compare_comparable-flip (words a) missing h k = absurd (k refl)
  compare_comparable-flip (words a) (number b) h k = refl
  compare_comparable-flip (words a) (words b) h k = compare_units-flip a b
  compare_comparable-flip (words a) (bytes b) h k = refl
  compare_comparable-flip (bytes a) missing h k = absurd (k refl)
  compare_comparable-flip (bytes a) (number b) h k = refl
  compare_comparable-flip (bytes a) (words b) h k = refl
  compare_comparable-flip (bytes a) (bytes b) h k = compare_units-flip a b

  comparable-missing : (v : SqlValue R) → is_null v ≡ false → comparable d v ≢ missing
  comparable-missing null h e = cc
  comparable-missing (integer z) h e = cc
  comparable-missing (bigint z) h e = cc
  comparable-missing (float r) h e = cc
  comparable-missing (real r) h e = cc
  comparable-missing (text s) h e = cc
  comparable-missing (json_text s) h e = cc
  comparable-missing (blob b) h e = cc

  -- Swapping the values turns the result round, whatever the values are; where one is null there is
  -- no result either way.
  pub compare_sql-flip :
      (a b : SqlValue R) → compare_sql d b a ≡ Option.map flip (compare_sql d a b)
  unfolding compare_sql
  compare_sql-flip a b = elim (Bool-cases (is_null a)) [
    | inl none_left ↦ ground (arith, none_left)
    | inr left ↦ elim (Bool-cases (is_null b)) [
      | inl none_right ↦ ground (arith, none_right)
      | inr right ↦
          rw (left, right)
            (ap some (
              compare_comparable-flip (comparable d a) (comparable d b) (comparable-missing a left)
                (comparable-missing b right)))
    ]
  ]

  compare_less-lt : (a b : Real R) → compare_less d a b ≡ Ordering.lt → d.less a b ≡ true
  unfolding compare_less
  compare_less-lt a b e = ground arith

  less-compare_less : (a b : Real R) → d.less a b ≡ true → compare_less d a b ≡ Ordering.lt
  unfolding compare_less
  less-compare_less a b e = rw e refl

  -- No NaN.
  abbrev pub IsNumber : Comparable R → Type 0
  IsNumber (number (double r)) = is_nan r ≡ false
  IsNumber _ = Unit

  abbrev pub value_of : Numeric R → Real R
  value_of (exact z) = d.of_integer z
  value_of (double r) = r

  value_of_number : (a : Numeric R) → IsNumber (number a) → is_nan (value_of a) ≡ false
  value_of_number (exact z) h = o.of_integer_number z
  value_of_number (double r) h = h

  compare_doubles-less :
      (a b : Real R)
      → is_nan a ≡ false
      → is_nan b ≡ false
      → compare_doubles d a b ≡ compare_less d a b
  unfolding compare_doubles
  compare_doubles-less a b h k = rw (h, k) refl

  -- Rounding two integers does not turn their order round.
  rounded :
      (a b : ℤ) → compare_ℤ a b ≡ Ordering.lt → d.less (d.of_integer b) (d.of_integer a) ≡ false
  rounded a b e = elim (Bool-cases (d.less (d.of_integer b) (d.of_integer a))) [
    | inl turned ↦ cc (e, compare_ℤ-flip b a, o.of_integer_mono b a turned)
    | inr kept ↦ kept
  ]

  compare_doubles-lt :
      (a b : Real R)
      → is_nan a ≡ false
      → is_nan b ≡ false
      → compare_doubles d a b ≡ Ordering.lt
      → d.less a b ≡ true
  compare_doubles-lt a b h k e = compare_less-lt a b (sym (compare_doubles-less a b h k) ∙ e)

  less-compare_doubles :
      (a b : Real R)
      → is_nan a ≡ false
      → is_nan b ≡ false
      → d.less a b ≡ true
      → compare_doubles d a b ≡ Ordering.lt
  less-compare_doubles a b h k e = compare_doubles-less a b h k ∙ less-compare_less a b e

  -- Below a number that is not above another, or above one that is not below another.
  less_of_not_above :
      (a b c : Real R)
      → is_nan a ≡ false
      → d.less b c ≡ true
      → d.less b a ≡ false
      → d.less a c ≡ true
  less_of_not_above a b c h e k = o.split b a c e h k

  less_of_not_below :
      (a b c : Real R)
      → is_nan c ≡ false
      → d.less a b ≡ true
      → d.less c b ≡ false
      → d.less a c ≡ true
  less_of_not_below a b c h e k = elim (Bool-cases (d.less a c)) [
    | inl below ↦ below
    | inr not_below ↦ cc (k, o.split a c b e h not_below)
  ]

  pub compare_numbers_trans :
      (a b c : Numeric R)
      → IsNumber (number a)
      → IsNumber (number b)
      → IsNumber (number c)
      → compare_numbers d a b ≡ Ordering.lt
      → compare_numbers d b c ≡ Ordering.lt
      → compare_numbers d a c ≡ Ordering.lt
  unfolding compare_numbers
  compare_numbers_trans (exact a) (exact b) (exact c) h k l e f = compare_ℤ_trans a b c e f
  compare_numbers_trans (exact a) (exact b) (double c) h k l e f =
      less-compare_less (d.of_integer a) c (
        less_of_not_above (d.of_integer a) (d.of_integer b) c (o.of_integer_number a)
          (compare_less-lt (d.of_integer b) c f) (rounded a b e))
  compare_numbers_trans (exact a) (double b) (exact c) h k l e f = o.of_integer_mono a c (
      o.transitive (d.of_integer a) b (d.of_integer c) (compare_less-lt (d.of_integer a) b e)
        (compare_less-lt b (d.of_integer c) f))
  compare_numbers_trans (exact a) (double b) (double c) h k l e f =
      less-compare_less (d.of_integer a) c (
        o.transitive (d.of_integer a) b c (compare_less-lt (d.of_integer a) b e)
          (compare_doubles-lt b c k l f))
  compare_numbers_trans (double a) (exact b) (exact c) h k l e f =
      less-compare_less a (d.of_integer c) (
        less_of_not_below a (d.of_integer b) (d.of_integer c) (o.of_integer_number c)
          (compare_less-lt a (d.of_integer b) e) (rounded b c f))
  compare_numbers_trans (double a) (exact b) (double c) h k l e f = less-compare_doubles a c h l (
      o.transitive a (d.of_integer b) c (compare_less-lt a (d.of_integer b) e)
        (compare_less-lt (d.of_integer b) c f))
  compare_numbers_trans (double a) (double b) (exact c) h k l e f =
      less-compare_less a (d.of_integer c) (
        o.transitive a b (d.of_integer c) (compare_doubles-lt a b h k e)
          (compare_less-lt b (d.of_integer c) f))
  compare_numbers_trans (double a) (double b) (double c) h k l e f =
      less-compare_doubles a c h l
        (o.transitive a b c (compare_doubles-lt a b h k e) (compare_doubles-lt b c k l f))
