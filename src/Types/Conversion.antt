-- ===== src/Types/Conversion.antt =====
-- types/value.ts: what a column's affinity makes of a value, and the affinities of a comparison.
-- The text of a real (types/sqlite-real-format.ts) is a parameter.
pub mod Laws
pub mod Rounding
use sqlite_mem.Prelude.{
  ℕ, ◌-◌, ◌^◌, Text, Bool, true, false, not, ◌&&◌, ◌||◌, Option, none, some, List, [], ◌∷◌,
  if◌then◌else◌, ltb, leb, ◌==◌, between,
}
use sqlite_mem.Prelude.Int.{ℤ, pos, negsuc}
use sqlite_mem.Indexes.Keys.{integer_text}
use sqlite_mem.Types.Value.{
  Real, nan, plus_infinity, minus_infinity, minus_zero, finite, SqlValue, null, integer, bigint,
  float, real, text, json_text, blob, Affinity, text_affinity, numeric_affinity, integer_affinity,
  real_affinity, blob_affinity,
}
use sqlite_mem.Types.Comparison.{Doubles, is_nan}

-- What the platform and types/sqlite-real-format.ts do: the integer that a double is, if it is one
-- (Number.isInteger), Number(s), String(n), `formatRealAsTextSqlite`, and TextDecoder.
pub record Numbers (R : Type 0) : Type 0 where
  pub doubles : Doubles R
  pub integral : Real R → Option ℤ
  pub parse : Text → Real R
  pub show : Real R → Text
  pub format_real : Real R → Text
  pub utf8_decode : List ℕ → Text

-- The white space that String.prototype.trim takes away.
abbrev pub is_white : ℕ → Bool
is_white c =
    between 9 13 c
    || c == 32
    || c == 0xA0
    || c == 0x1680
    || between 0x2000 0x200A c
    || between 0x2028 0x2029 c
    || c == 0x202F
    || c == 0x205F
    || c == 0x3000
    || c == 0xFEFF

unfoldable pub trim_start : Text → Text
trim_start [] = []
trim_start (c ∷ cs) = let rest = trim_start cs in if is_white c then rest else c ∷ cs

abbrev pub keep_unless_white : ℕ → Text → Text
keep_unless_white c [] = if is_white c then [] else c ∷ []
keep_unless_white c (d ∷ ds) = c ∷ d ∷ ds

unfoldable pub trim_white_end : Text → Text
trim_white_end [] = []
trim_white_end (c ∷ cs) = keep_unless_white c (trim_white_end cs)

abbrev pub trim : Text → Text
trim s = trim_white_end (trim_start s)

-- /^[+-]?(\d+(\.\d*)?|\.\d+)([eE][+-]?\d+)?$/
abbrev pub is_digit : ℕ → Bool
is_digit = between b'0' b'9'

unfoldable pub skip_digits : Text → Text
skip_digits [] = []
skip_digits (c ∷ cs) = let rest = skip_digits cs in if is_digit c then rest else c ∷ cs

abbrev pub digit_first : Text → Bool
digit_first [] = false
digit_first (c ∷ cs) = is_digit c

abbrev pub skip_sign : Text → Text
skip_sign [] = []
skip_sign (c ∷ cs) = if c == b'+' || c == b'-' then cs else c ∷ cs

abbrev pub is_nil : Text → Bool
is_nil [] = true
is_nil (c ∷ cs) = false

abbrev pub is_exponent : Text → Bool
is_exponent [] = true
is_exponent (c ∷ cs) =
    (c == b'e' || c == b'E') && digit_first (skip_sign cs) && is_nil (skip_digits (skip_sign cs))

abbrev pub skip_fraction : Text → Text
skip_fraction [] = []
skip_fraction (c ∷ cs) = if c == b'.' then skip_digits cs else c ∷ cs

abbrev pub is_unsigned : Text → Bool
is_unsigned [] = false
is_unsigned (c ∷ cs) =
    if is_digit c
    then is_exponent (skip_fraction (skip_digits cs))
    else c == b'.' && digit_first cs && is_exponent (skip_digits cs)

unfoldable pub is_numeric : Text → Bool
unfolding skip_digits
is_numeric s = is_unsigned (skip_sign s)

-- Number.isSafeInteger
abbrev pub is_safe : ℤ → Bool
is_safe (pos n) = ltb n (2 ^ 53)
is_safe (negsuc n) = ltb n (2 ^ 53 - 1)

abbrev pub or_kept :
    {R : Type 0} → SqlValue R → (Real R → SqlValue R) → Option (Real R) → SqlValue R
or_kept value convert none = value
or_kept value convert (some n) = convert n

abbrev pub is_numeric_affinity : Option Affinity → Bool
is_numeric_affinity (some integer_affinity) = true
is_numeric_affinity (some real_affinity) = true
is_numeric_affinity (some numeric_affinity) = true
is_numeric_affinity _ = false

abbrev pub is_no_affinity : Option Affinity → Bool
is_no_affinity none = true
is_no_affinity (some blob_affinity) = true
is_no_affinity _ = false

abbrev pub is_text_affinity : Option Affinity → Bool
is_text_affinity (some text_affinity) = true
is_text_affinity _ = false

-- REAL for a REAL column, NUMERIC for the others.
abbrev pub number_affinity : Option Affinity → Affinity
number_affinity (some real_affinity) = real_affinity
number_affinity _ = numeric_affinity

module _ {R : Type 0} (h : Numbers R) where
  -- `canonicalizeNumber`
  abbrev pub canonical : Real R → Real R
  canonical minus_zero = h.doubles.of_integer (pos 0)
  canonical r = r

  -- A number as a value.
  abbrev pub number_value : Real R → SqlValue R
  number_value n = elim (h.integral n) [ none ↦ float n | some z ↦ integer z ]

  -- `coerceToNumber` of a string
  unfoldable pub coerce_text : Text → Option (Real R)
  unfolding trim_start trim_white_end is_numeric
  coerce_text s =
      let t = trim s in
      let n = h.parse t in
      if is_nil t then none else if not (is_nan n) && is_numeric t then some (canonical n) else none

  -- `coerceToNumber`
  unfoldable pub coerce_to_number : SqlValue R → Option (Real R)
  unfolding coerce_text
  coerce_to_number null = none
  coerce_to_number (real r) = some r
  coerce_to_number (json_text s) = coerce_text s
  coerce_to_number (integer z) = some (canonical (h.doubles.of_integer z))
  coerce_to_number (float r) = some (canonical r)
  coerce_to_number (bigint z) = some (h.doubles.of_integer z)
  coerce_to_number (text s) = coerce_text s
  coerce_to_number (blob b) = coerce_text (h.utf8_decode b)

  -- Number.isInteger(n) && Number.isSafeInteger(n) ? Math.trunc(n) : canonicalizeNumber(n)
  abbrev pub whole_or_number : Real R → SqlValue R
  whole_or_number n = elim (h.integral n) [
    | none ↦ number_value (canonical n)
    | some z ↦ if is_safe z then integer z else number_value (canonical n)
  ]

  -- TEXT
  unfoldable pub to_text : SqlValue R → SqlValue R
  to_text null = null
  to_text (blob b) = blob b
  to_text (json_text s) = text s
  to_text (text s) = text s
  to_text (real r) = text (h.format_real (canonical r))
  to_text (float r) = text (h.show (canonical r))
  to_text (integer z) = text (h.show (canonical (h.doubles.of_integer z)))
  to_text (bigint z) = text (integer_text z)

  -- INTEGER: a BigInt is kept.
  unfoldable pub to_integer_column : SqlValue R → SqlValue R
  unfolding coerce_to_number
  to_integer_column null = null
  to_integer_column (blob b) = blob b
  to_integer_column (bigint z) = bigint z
  to_integer_column value = or_kept value whole_or_number (coerce_to_number value)

  -- REAL; the constructor of `SqlReal` makes 0 of -0.
  unfoldable pub to_real_column : SqlValue R → SqlValue R
  unfolding coerce_to_number
  to_real_column null = null
  to_real_column (blob b) = blob b
  to_real_column value = or_kept value (λ n. real (canonical n)) (coerce_to_number value)

  -- NUMERIC
  unfoldable pub to_numeric_column : SqlValue R → SqlValue R
  unfolding coerce_to_number
  to_numeric_column null = null
  to_numeric_column (blob b) = blob b
  to_numeric_column value = or_kept value whole_or_number (coerce_to_number value)

  -- `applyAffinity`
  unfoldable pub apply_affinity : SqlValue R → Affinity → SqlValue R
  unfolding to_text to_integer_column to_real_column to_numeric_column
  apply_affinity value text_affinity = to_text value
  apply_affinity value integer_affinity = to_integer_column value
  apply_affinity value real_affinity = to_real_column value
  apply_affinity value numeric_affinity = to_numeric_column value
  apply_affinity value blob_affinity = value

  -- `applyComparisonAffinity`
  unfoldable pub apply_comparison_affinity :
      SqlValue R → SqlValue R → Option Affinity → Option Affinity → SqlValue R × SqlValue R
  unfolding apply_affinity
  apply_comparison_affinity left right la ra =
      if is_numeric_affinity la && (is_text_affinity ra || is_no_affinity ra)
      then (left, apply_affinity right (number_affinity la))
      else if is_numeric_affinity ra && (is_text_affinity la || is_no_affinity la)
      then (apply_affinity left (number_affinity ra), right)
      else if is_text_affinity la && is_no_affinity ra
      then (left, apply_affinity right text_affinity)
      else if is_text_affinity ra && is_no_affinity la
      then (apply_affinity left text_affinity, right)
      else (left, right)
