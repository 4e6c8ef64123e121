-- ===== src/Types/Runs.antt =====
-- Values in order, columns, and collations of short texts, with the letters of ASCII in place of all that have a capital.
use sqlite_mem.Prelude.{ℕ, ◌-◌, Text, codes, ◌&&◌, ◌++◌, map, if◌then◌else◌, leb, ◌≡◌, refl}
use sqlite_mem.Errors.{ok}
use sqlite_mem.Types.Value.{SqlValue, text, json_text}
use Prim.Native.Nat.{Ordering}
use mathlib.Core.Option
use sqlite_mem.Prelude.{some}
use sqlite_mem.Prelude.Int.{pos}
use sqlite_mem.Types.Value.{finite, bigint, real, integer, numeric_affinity}
use sqlite_mem.Types.Comparison.{compare_sql}
use sqlite_mem.Types.Comparison.Units.{flip}
use sqlite_mem.Types.Comparison.Laws.{compare_sql-flip}
use sqlite_mem.Types.Comparison.Order.{compare_sql_trans}
use sqlite_mem.Types.Conversion.{apply_affinity}
use sqlite_mem.Types.Conversion.Laws.{apply_affinity_twice}
use sqlite_mem.Types.Strict.{int_type, apply_strict_value}
use sqlite_mem.Types.Strict.Classes.{Holds, apply_strict_value-Holds}
use sqlite_mem.Types.Evens.{evens, evens-IsOrdered, evens-IsExact}
use sqlite_mem.Types.{normalize_for_collation}
use sqlite_mem.Types.Collation.{blanks, normalize_twice, normalize_rtrim}

abbrev upper_letter : ℕ → ℕ
upper_letter c = if leb 97 c && leb c 122 then c - 32 else c

abbrev upper : Text → Text
upper = map upper_letter

abbrev mixed : SqlValue ℕ
mixed = text (codes "Anna @Z[")

abbrev folded : SqlValue ℕ
folded = text (codes "anna @z[")

-- A text with the JSON subtype is left as it is.
json_text_kept :
    normalize_for_collation upper {R = ℕ} (json_text (codes "A")) (codes "nocase")
    ≡ ok (json_text (codes "A"))
unfolding normalize_for_collation
json_text_kept = refl

normalize_twice_example : normalize_for_collation upper folded (codes "NoCase") ≡ ok folded
unfolding normalize_for_collation
normalize_twice_example = normalize_twice upper mixed folded (codes "NoCase") refl

normalize_rtrim_example :
    normalize_for_collation upper {R = ℕ} (text (codes "a b" ++ blanks 2)) (codes "rtrim")
    ≡ normalize_for_collation upper (text (codes "a b")) (codes "rtrim")
normalize_rtrim_example = normalize_rtrim upper (codes "a b") (codes "rtrim") 2 refl

compare_sql-flip_example :
    compare_sql evens.doubles (text (codes "a")) (bigint (pos 7))
    ≡ Option.map flip (compare_sql evens.doubles (bigint (pos 7)) (text (codes "a")))
compare_sql-flip_example =
    compare_sql-flip evens.doubles evens-IsOrdered (bigint (pos 7)) (text (codes "a"))

-- 7 is below 9 as BigInts are, and 9 below the real 10.
compare_sql_trans_example :
    compare_sql evens.doubles (bigint (pos 7)) (real (finite 5)) ≡ some Ordering.lt
unfolding compare_sql
compare_sql_trans_example =
    compare_sql_trans evens.doubles evens-IsOrdered (bigint (pos 7)) (bigint (pos 9))
      (real (finite 5)) tt tt refl refl refl

apply_affinity_twice_example :
    apply_affinity evens (apply_affinity evens (bigint (pos 7)) numeric_affinity) numeric_affinity
    ≡ apply_affinity evens (bigint (pos 7)) numeric_affinity
apply_affinity_twice_example =
    apply_affinity_twice evens evens-IsExact (bigint (pos 7)) numeric_affinity

abbrev ten : SqlValue ℕ
ten = integer (pos 10)

-- The real 10 is let into an INT column.
apply_strict_value-Holds_example :
    Holds int_type
      (real (finite 5))
      (apply_strict_value evens (codes "t") (codes "c") upper (real (finite 5)) (codes " int "))
unfolding apply_strict_value
apply_strict_value-Holds_example =
    apply_strict_value-Holds evens (codes "t") (codes "c") upper (real (finite 5)) (codes " int ")
      int_type refl

strict_ten :
    apply_strict_value evens (codes "t") (codes "c") upper (real (finite 5)) (codes " int ")
    ≡ ok ten
unfolding apply_strict_value
strict_ten = refl
