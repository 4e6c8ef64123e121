-- ===== src/Types.antt =====
-- types/collation.ts: the built-in collations. Values are in Types/Value, their comparison in
-- Types/Comparison and the conversions of an affinity in Types/Conversion.
pub mod Value
pub mod Comparison
pub mod Conversion
pub mod Collation
pub mod Evens
pub mod Strict
mod Runs
use sqlite_mem.Prelude.{
  ℕ, ◌+◌, Text, codes, text_eq, Bool, true, false, ◌&&◌, ◌||◌, Option, none, some, List, [], ◌∷◌,
  if◌then◌else◌, leb, ◌==◌,
}
use sqlite_mem.Errors.{Result, ok, err, ◌>>=◌, sqlite_error, other}
use Prim.Native.Nat.{Ordering}
use Comparison.{Doubles, compare_sql}
use Value.{SqlValue, null, integer, real, text, json_text, blob}
use sqlite_mem.Prelude.{◌++◌}

-- `BuiltinCollation`
pub data BuiltinCollation : Type 0 where
  binary nocase rtrim : BuiltinCollation

-- A character before what is left of the text behind it.
abbrev pub keep_before : ℕ → Text → Text
keep_before c [] = if c == 32 then [] else c ∷ []
keep_before c (d ∷ ds) = c ∷ d ∷ ds

-- value.replace(/ +$/u, "")
unfoldable pub trim_end : Text → Text
trim_end [] = []
trim_end (c ∷ cs) = keep_before c (trim_end cs)

-- The loop of NOCASE. A character of two code units has none among the letters.
abbrev pub lower_letter : ℕ → ℕ
lower_letter code = if leb 65 code && leb code 90 then code + 32 else code

unfoldable pub lower_letters : Text → Text
lower_letters [] = []
lower_letters (c ∷ cs) = lower_letter c ∷ lower_letters cs

-- `normalizeForCollation`, for the collation that is named: strings alone are changed.
unfoldable pub normalize_value : {R : Type 0} → BuiltinCollation → SqlValue R → SqlValue R
unfolding trim_end lower_letters
normalize_value rtrim (text s) = text (trim_end s)
normalize_value nocase (text s) = text (lower_letters s)
normalize_value collation value = value

-- `to_upper` is String.prototype.toUpperCase.
module _ (to_upper : Text → Text) where
  -- `builtinCollation`
  unfoldable pub builtin_collation : Text → Result BuiltinCollation
  unfolding text_eq
  builtin_collation name =
      let normalized = to_upper name in
      if text_eq normalized (codes "BINARY")
      then ok binary
      else if text_eq normalized (codes "NOCASE")
      then ok nocase
      else if text_eq normalized (codes "RTRIM")
      then ok rtrim
      else err (sqlite_error (codes "no such collation sequence: " ++ name) other)

  unfoldable pub normalize_for_collation : {R : Type 0} → SqlValue R → Text → Result (SqlValue R)
  unfolding builtin_collation normalize_value
  normalize_for_collation value name =
      builtin_collation name >>= λ collation. ok (normalize_value collation value)

  -- `compareWithCollation`
  unfoldable pub compare_with_collation :
      {R : Type 0} → Doubles R → SqlValue R → SqlValue R → Text → Result (Option Ordering)
  unfolding normalize_for_collation compare_sql
  compare_with_collation d a b name = normalize_for_collation a name >>= λ left.
      normalize_for_collation b name >>= λ right. ok (compare_sql d left right)
