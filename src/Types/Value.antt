-- ===== src/Types/Value.antt =====
-- types/value.ts: SQL values, their storage classes and the affinity of a declared type.
use sqlite_mem.Prelude.{
  ℕ, Text, codes, Bool, true, false, ◌&&◌, ◌||◌, Option, none, some, List, [], ◌∷◌, if◌then◌else◌,
  ◌==◌,
}
use sqlite_mem.Prelude.Int.{ℤ}

-- A double. `R` has the finite ones but -0.
pub data Real (R : Type 0) : Type 0 where
  nan plus_infinity minus_infinity minus_zero : Real R
  finite : R → Real R

-- `SqlValue`. A JavaScript number is `integer` if it is an integer, and `float` otherwise; `real` is
-- `SqlReal` and `json_text` is `SqlJsonText`.
pub data SqlValue (R : Type 0) : Type 0 where
  null : SqlValue R
  integer bigint : ℤ → SqlValue R
  float real : Real R → SqlValue R
  text json_text : Text → SqlValue R
  blob : List ℕ → SqlValue R

abbrev pub is_null : {R : Type 0} → SqlValue R → Bool
is_null null = true
is_null _ = false

-- `StorageClass` and `storageClassOf`
pub data StorageClass : Type 0 where
  null_class integer_class real_class text_class blob_class : StorageClass

unfoldable pub storage_class_of : {R : Type 0} → SqlValue R → StorageClass
storage_class_of null = null_class
storage_class_of (integer z) = integer_class
storage_class_of (bigint z) = integer_class
storage_class_of (float r) = real_class
storage_class_of (real r) = real_class
storage_class_of (text s) = text_class
storage_class_of (json_text s) = text_class
storage_class_of (blob b) = blob_class

-- `typeofSql`
unfoldable pub typeof_sql : {R : Type 0} → SqlValue R → Text
unfolding storage_class_of
typeof_sql value = elim (storage_class_of value) [
  | null_class ↦ codes "null"
  | integer_class ↦ codes "integer"
  | real_class ↦ codes "real"
  | text_class ↦ codes "text"
  | blob_class ↦ codes "blob"
]

-- `unwrapSqlValue` and `subtypeOf`
abbrev pub unwrap_sql_value : {R : Type 0} → SqlValue R → SqlValue R
unwrap_sql_value (json_text s) = text s
unwrap_sql_value value = value

abbrev pub subtype_of : {R : Type 0} → SqlValue R → ℕ
subtype_of (json_text s) = 74
subtype_of value = 0

-- `Affinity`
pub data Affinity : Type 0 where
  text_affinity numeric_affinity integer_affinity real_affinity blob_affinity : Affinity

abbrev pub starts_with : Text → Text → Bool
starts_with s [] = true
starts_with [] (p ∷ ps) = false
starts_with (c ∷ cs) (p ∷ ps) = (c == p) && starts_with cs ps

-- s.includes(part)
unfoldable pub includes : Text → Text → Bool
includes [] part = starts_with [] part
includes (c ∷ cs) part = starts_with (c ∷ cs) part || includes cs part

-- `affinityFromTypeName`, behind the test for a missing or empty name and `toUpperCase`.
unfoldable pub affinity_of_upper : Text → Affinity
unfolding includes
affinity_of_upper t =
    if includes t (codes "INT")
    then integer_affinity
    else if includes t (codes "CHAR") || includes t (codes "CLOB") || includes t (codes "TEXT")
    then text_affinity
    else if includes t (codes "BLOB")
    then blob_affinity
    else if includes t (codes "REAL") || includes t (codes "FLOA") || includes t (codes "DOUB")
    then real_affinity
    else numeric_affinity

-- `to_upper` is String.prototype.toUpperCase.
unfoldable pub affinity_from_type_name : (Text → Text) → Option Text → Affinity
unfolding affinity_of_upper
affinity_from_type_name to_upper none = blob_affinity
affinity_from_type_name to_upper (some []) = blob_affinity
affinity_from_type_name to_upper (some (c ∷ cs)) = affinity_of_upper (to_upper (c ∷ cs))
