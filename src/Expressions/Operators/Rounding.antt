-- ===== src/Expressions/Operators/Rounding.antt =====
-- What `=` makes of large integers.
use sqlite_mem.Prelude.{Text, true, none, some, ◌≡◌, refl}
use sqlite_mem.Prelude.Int.{ℤ}
use sqlite_mem.Errors.{ok}
use sqlite_mem.Types.Value.{bigint, integer_affinity}
use sqlite_mem.Types.Comparison.Laws.{IsOrdered}
use sqlite_mem.Types.Conversion.{Numbers}
use sqlite_mem.Types.Conversion.Laws.{IsExact}
use sqlite_mem.Types.Conversion.Rounding.{numeric_column_rounds}
use sqlite_mem.Expressions.Operators.{boolean_value, equal, compare_result}

module _ {R : Type 0} (h : Numbers R) (o : IsOrdered h.doubles) (x : IsExact h) where
  -- `=` between a BigInt of an INTEGER column and a BigInt without affinity is true if Number rounds the
  -- two to the same double, whether they are the same or not.
  pub integer_column_rounds :
      (to_upper : Text → Text) (a b : ℤ)
      → h.doubles.of_integer a ≡ h.doubles.of_integer b
      → compare_result h to_upper equal (bigint a) (bigint b) none (some integer_affinity) none
        ≡ ok (boolean_value true)
  unfolding compare_result
  integer_column_rounds to_upper a b e = rw (numeric_column_rounds h o x a b e) refl
