-- ===== src/Indexes/Keys.antt =====
-- indexes/index.ts: the key of an index entry, a string.
pub mod Injective
use sqlite_mem.Prelude.{
  ℕ, zero, suc, ◌+◌, ◌*◌, ◌/◌, ◌%◌, ◌≤◌, ◌<◌, Text, codes, Bool, true, false, ◌||◌, Option, none,
  some, List, [], ◌∷◌, ◌++◌, length, if◌then◌else◌, ltb, map,
}
use sqlite_mem.Prelude.Int.{ℤ, pos, negsuc}
use sqlite_mem.Types.Value.{
  Real, nan, plus_infinity, minus_infinity, minus_zero, finite, SqlValue, null, integer, bigint,
  float, real, text, json_text, blob, is_null,
}

-- values.some((value) => value === null)
abbrev pub has_null : {R : Type 0} → List (SqlValue R) → Bool
has_null [] = false
has_null (v ∷ vs) = is_null v || has_null vs

-- A natural number in decimal: its last digit behind those of its tenth. A number has at most as many
-- digits as it counts, which is the fuel.
unfoldable pub digits : ℕ → ℕ → Text
digits zero n = (48 + n) ∷ []
digits (suc fuel) n =
    let rest = digits fuel (n / 10) in
    if ltb n 10 then (48 + n) ∷ [] else rest ++ (48 + n % 10) ∷ []

abbrev pub nat_text : ℕ → Text
nat_text n = digits n n

-- BigInt.prototype.toString
abbrev pub integer_text : ℤ → Text
integer_text (pos n) = nat_text n
integer_text (negsuc n) = b'-' ∷ nat_text (suc n)

-- A byte in two hexadecimal digits: byte.toString(16).padStart(2, "0")
abbrev pub hex_digit : ℕ → ℕ
hex_digit n = if ltb n 10 then 48 + n else 87 + n

unfoldable pub hex_text : List ℕ → Text
hex_text [] = []
hex_text (b ∷ bs) = hex_digit (b / 16) ∷ hex_digit (b % 16) ∷ hex_text bs

-- `${part.length}:${part}`
abbrev pub piece : Text → Text
piece s = nat_text (length s) ++ b':' ∷ s

-- The pieces, with `|` between them.
unfoldable pub join : List Text → Text
unfolding digits
join [] = []
join (s ∷ []) = piece s
join (s ∷ t ∷ ts) = piece s ++ b'|' ∷ join (t ∷ ts)

-- `to_text` is Number.prototype.toString.
module _ {R : Type 0} (to_text : R → Text) where
  abbrev pub real_text : Real R → Text
  real_text nan = codes "nan"
  real_text plus_infinity = codes "+inf"
  real_text minus_infinity = codes "-inf"
  real_text minus_zero = codes "0"
  real_text (finite r) = to_text r

  -- `serializeValue`, and `NULL_PART` for null.
  unfoldable pub part : SqlValue R → Text
  unfolding digits hex_text
  part null = b'z' ∷ []
  part (bigint z) = b'n' ∷ b':' ∷ integer_text z
  part (integer z) = b'n' ∷ b':' ∷ integer_text z
  part (float r) = b'f' ∷ b':' ∷ real_text r
  part (real r) = b'f' ∷ b':' ∷ real_text r
  part (text s) = b't' ∷ b':' ∷ s
  part (json_text s) = b't' ∷ b':' ∷ s
  part (blob b) = b'b' ∷ b':' ∷ hex_text b

  -- `serializeIndexEntry`
  unfoldable pub serialize_entry : List (SqlValue R) → Text
  unfolding part join
  serialize_entry vs = join (map part vs)

  -- `serializeIndexKey`: the key of a hash join, which no row with a null has.
  unfoldable pub serialize_index_key : List (SqlValue R) → Option Text
  unfolding serialize_entry
  serialize_index_key vs = if has_null vs then none else some (serialize_entry vs)
