-- ===== src/Types/Comparison/Order.antt =====
-- What `compareSql` puts strictly below is below transitively, across classes and kinds of number.
use Prim.Native.Nat.{Ordering}
use sqlite_mem.Prelude.{false, some, ◌≡◌, refl, inl, inr, Bool-cases, ap}
use sqlite_mem.Types.Value.{SqlValue, is_null}
use sqlite_mem.Types.Comparison.{
  Doubles, Comparable, missing, number, words, bytes, comparable, compare_comparable, compare_sql,
}
use sqlite_mem.Types.Comparison.Units.{compare_units_trans}
use sqlite_mem.Types.Comparison.Laws.{IsOrdered, IsNumber, compare_numbers_trans}

module _ {R : Type 0} (d : Doubles R) (o : IsOrdered d) where
  compare_comparable_trans :
      (a b c : Comparable R)
      → IsNumber d o a
      → IsNumber d o b
      → IsNumber d o c
      → compare_comparable d a b ≡ Ordering.lt
      → compare_comparable d b c ≡ Ordering.lt
      → compare_comparable d a c ≡ Ordering.lt
  unfolding compare_comparable
  compare_comparable_trans (number a) (number b) (number c) h k l e f =
      compare_numbers_trans d o a b c h k l e f
  compare_comparable_trans (words a) (words b) (words c) h k l e f = compare_units_trans a b c e f
  compare_comparable_trans (bytes a) (bytes b) (bytes c) h k l e f = compare_units_trans a b c e f
  compare_comparable_trans (number a) (number b) (words c) h k l e f = refl
  compare_comparable_trans (number a) (number b) (bytes c) h k l e f = refl
  compare_comparable_trans (number a) (words b) (words c) h k l e f = refl
  compare_comparable_trans (number a) (bytes b) (bytes c) h k l e f = refl
  compare_comparable_trans (words a) (words b) (bytes c) h k l e f = refl
  compare_comparable_trans (words a) (bytes b) (bytes c) h k l e f = refl
  compare_comparable_trans missing missing c h k l e f = cc
  compare_comparable_trans missing b (number c) h k l e f = refl
  compare_comparable_trans missing b (words c) h k l e f = refl
  compare_comparable_trans missing b (bytes c) h k l e f = refl
  compare_comparable_trans a (number b) missing h k l e f = cc
  compare_comparable_trans a (words b) missing h k l e f = cc
  compare_comparable_trans a (bytes b) missing h k l e f = cc
  compare_comparable_trans a b c h k l e f = cc

  -- No value is NaN.
  abbrev pub HasNumber : SqlValue R → Type 0
  HasNumber v = IsNumber d o (comparable d v)

  -- Where `compareSql` has a result, no value is null and it is that of the classes.
  pub compare_sql-cases :
      (a b : SqlValue R) (r : Ordering)
      → compare_sql d a b ≡ some r
      → (is_null a ≡ false)
        × (is_null b ≡ false)
        × (compare_comparable d (comparable d a) (comparable d b) ≡ r)
  unfolding compare_sql
  compare_sql-cases a b r e = elim (Bool-cases (is_null a)) [
    | inl none_left ↦ cc (rw (none_left, compare_sql) at e)
    | inr left ↦ elim (Bool-cases (is_null b)) [
      | inl none_right ↦ cc (rw (left, none_right, compare_sql) at e)
      | inr right ↦ (left, right, cc (rw (left, right, compare_sql) at e))
    ]
  ]

  -- Of three values without NaN, if the first is below the second and the second below the third, then
  -- the first is below the third, also where BigInts and doubles mix.
  pub compare_sql_trans :
      (a b c : SqlValue R)
      → HasNumber a
      → HasNumber b
      → HasNumber c
      → compare_sql d a b ≡ some Ordering.lt
      → compare_sql d b c ≡ some Ordering.lt
      → compare_sql d a c ≡ some Ordering.lt
  unfolding compare_sql
  compare_sql_trans a b c h k l e f =
      let (left, _, below) = compare_sql-cases a b Ordering.lt e in
      let (_, right, above) = compare_sql-cases b c Ordering.lt f in
      rw (left, right)
        (ap some (
          compare_comparable_trans (comparable d a) (comparable d b) (comparable d c) h k l below
            above))
