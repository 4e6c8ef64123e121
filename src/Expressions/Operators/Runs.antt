-- ===== src/Expressions/Operators/Runs.antt =====
-- Comparisons of BigInts that one double holds.
use sqlite_mem.Prelude.{codes, true, none, some, ◌≡◌, refl, to_upper}
use sqlite_mem.Prelude.Int.{pos}
use sqlite_mem.Errors.{ok, ◌>>=◌}
use sqlite_mem.Types.Value.{bigint, text, integer_affinity}
use sqlite_mem.Types.Evens.{evens, evens-IsOrdered, evens-IsExact}
use sqlite_mem.Expressions.Operators.{
  boolean_value, equal, less, greater, greater_equal, compare_result,
}
use sqlite_mem.Expressions.Operators.Laws.{
  not_value, compare_result-opposite, compare_result-swapped,
}
use sqlite_mem.Expressions.Operators.Rounding.{integer_column_rounds}

compare_result-opposite_example :
    compare_result evens to_upper greater_equal
      (text (codes "b"))
      (text (codes "A "))
      (some (codes "nocase"))
      none
      none
    ≡ (compare_result evens to_upper less
          (text (codes "b"))
          (text (codes "A "))
          (some (codes "nocase"))
          none
          none
        >>= λ v. ok (not_value v))
compare_result-opposite_example =
    compare_result-opposite evens to_upper less (text (codes "b")) (text (codes "A "))
      (some (codes "nocase")) none none

compare_result-swapped_example :
    compare_result evens to_upper greater
      (text (codes "12"))
      (bigint (pos 7))
      none
      none
      (some integer_affinity)
    ≡ compare_result evens to_upper less
        (bigint (pos 7))
        (text (codes "12"))
        none
        (some integer_affinity)
        none
compare_result-swapped_example =
    compare_result-swapped evens to_upper evens-IsOrdered less (bigint (pos 7)) (text (codes "12"))
      none (some integer_affinity) none

-- 7 and 6 are held by one double.
integer_column_rounds_example :
    compare_result evens to_upper equal
      (bigint (pos 7))
      (bigint (pos 6))
      none
      (some integer_affinity)
      none
    ≡ ok (boolean_value true)
integer_column_rounds_example =
    integer_column_rounds evens evens-IsOrdered evens-IsExact to_upper (pos 7) (pos 6) refl
