-- ===== src/Types/Strict.antt =====
-- types/strict.ts: what a column of a STRICT table accepts.
pub mod Classes
use sqlite_mem.Prelude.{
  ℕ, Text, codes, text_eq, Bool, true, false, ◌&&◌, Option, none, some, List, [], ◌∷◌, ◌++◌,
  if◌then◌else◌,
}
use sqlite_mem.Prelude.Int.{ℤ}
use sqlite_mem.Errors.{Result, ok, err, SqliteError, datatype_mismatch, sqlite_error, other}
use sqlite_mem.Indexes.Keys.{integer_text}
use sqlite_mem.Types.Value.{
  Real, SqlValue, null, integer, bigint, float, real, text, json_text, blob, StorageClass,
  null_class, integer_class, real_class, text_class, blob_class,
}
use sqlite_mem.Types.Conversion.{Numbers, canonical, trim, coerce_text}

-- `STRICT_TYPES`; INT and INTEGER keep their spelling for the messages.
pub data StrictType : Type 0 where
  int_type integer_type real_type text_type blob_type any_type : StrictType

abbrev pub type_name : StrictType → Text
type_name int_type = codes "INT"
type_name integer_type = codes "INTEGER"
type_name real_type = codes "REAL"
type_name text_type = codes "TEXT"
type_name blob_type = codes "BLOB"
type_name any_type = codes "ANY"

unfoldable pub strict_type : Text → Option StrictType
unfolding text_eq
strict_type declared =
    if text_eq declared (codes "ANY")
    then some any_type
    else if text_eq declared (codes "TEXT")
    then some text_type
    else if text_eq declared (codes "INT")
    then some int_type
    else if text_eq declared (codes "INTEGER")
    then some integer_type
    else if text_eq declared (codes "REAL")
    then some real_type
    else if text_eq declared (codes "BLOB")
    then some blob_type
    else none

-- The name of a storage class in the messages.
abbrev pub shown : StorageClass → Text
shown integer_class = codes "INT"
shown null_class = codes "NULL"
shown real_class = codes "REAL"
shown text_class = codes "TEXT"
shown blob_class = codes "BLOB"

-- `cannotStore`
abbrev pub cannot_store : StorageClass → StrictType → Text → Text → SqliteError
cannot_store storage declared table column = record {
  message =
      codes "cannot store "
      ++ (shown storage
          ++ (codes " value in "
              ++ (type_name declared ++ (codes " column " ++ (table ++ (codes "." ++ column))))));
  category = datatype_mismatch;
  sqlite_code = "SQLITE_CONSTRAINT_DATATYPE";
}

abbrev pub unknown_strict_type : Text → Text → Text → SqliteError
unknown_strict_type table column type_name =
    sqlite_error
      (codes "unknown datatype for "
        ++ (table ++ (codes "." ++ (column ++ (codes ": \"" ++ (type_name ++ codes "\""))))))
      other

module _ {R : Type 0} (h : Numbers R) (table column : Text) where
  -- INT and INTEGER: a real that is an integer becomes one, and a text that is written as one does.
  abbrev pub whole_real : StrictType → Real R → Result (SqlValue R)
  whole_real declared n = elim (h.integral n) [
    | some z ↦ ok (integer z)
    | none ↦ err (cannot_store real_class declared table column)
  ]

  abbrev pub written_as : StrictType → Text → Real R → ℤ → Result (SqlValue R)
  written_as declared s n z =
      if text_eq (trim s) (h.show n)
      then ok (integer z)
      else err (cannot_store text_class declared table column)

  abbrev pub whole_text : StrictType → Text → Option (Real R) → Result (SqlValue R)
  whole_text declared s none = err (cannot_store text_class declared table column)
  whole_text declared s (some n) = elim (h.integral n) [
    | some z ↦ written_as declared s n z
    | none ↦ err (cannot_store text_class declared table column)
  ]

  unfoldable pub strict_integer : StrictType → SqlValue R → Result (SqlValue R)
  unfolding text_eq coerce_text
  strict_integer declared null = ok null
  strict_integer declared (integer z) = ok (integer z)
  strict_integer declared (bigint z) = ok (bigint z)
  strict_integer declared (float r) = whole_real declared r
  strict_integer declared (real r) = whole_real declared r
  strict_integer declared (text s) = whole_text declared s (coerce_text h s)
  strict_integer declared (json_text s) = whole_text declared s (coerce_text h s)
  strict_integer declared (blob b) = err (cannot_store blob_class declared table column)

  abbrev pub strict_text : SqlValue R → Result (SqlValue R)
  strict_text null = ok null
  strict_text (text s) = ok (text s)
  strict_text (json_text s) = ok (text s)
  strict_text (integer z) = ok (text (h.show (h.doubles.of_integer z)))
  strict_text (bigint z) = ok (text (integer_text z))
  strict_text (float r) = ok (text (h.show r))
  strict_text (real r) = ok (text (h.show r))
  strict_text (blob b) = err (cannot_store blob_class text_type table column)

  abbrev pub as_real : Option (Real R) → Result (SqlValue R)
  as_real none = err (cannot_store text_class real_type table column)
  as_real (some n) = ok (real (canonical h n))

  unfoldable pub strict_real : SqlValue R → Result (SqlValue R)
  unfolding coerce_text
  strict_real null = ok null
  strict_real (real r) = ok (real r)
  strict_real (float r) = ok (real (canonical h r))
  strict_real (integer z) = ok (real (canonical h (h.doubles.of_integer z)))
  strict_real (bigint z) = ok (real (canonical h (h.doubles.of_integer z)))
  strict_real (text s) = as_real (coerce_text h s)
  strict_real (json_text s) = as_real (coerce_text h s)
  strict_real (blob b) = err (cannot_store blob_class real_type table column)

  abbrev pub strict_blob : SqlValue R → Result (SqlValue R)
  strict_blob null = ok null
  strict_blob (blob b) = ok (blob b)
  strict_blob (integer z) = err (cannot_store integer_class blob_type table column)
  strict_blob (bigint z) = err (cannot_store integer_class blob_type table column)
  strict_blob (float r) = err (cannot_store real_class blob_type table column)
  strict_blob (real r) = err (cannot_store real_class blob_type table column)
  strict_blob (text s) = err (cannot_store text_class blob_type table column)
  strict_blob (json_text s) = err (cannot_store text_class blob_type table column)

  unfoldable pub strict_value_of : StrictType → SqlValue R → Result (SqlValue R)
  unfolding strict_integer strict_real
  strict_value_of any_type value = ok value
  strict_value_of text_type value = strict_text value
  strict_value_of int_type value = strict_integer int_type value
  strict_value_of integer_type value = strict_integer integer_type value
  strict_value_of real_type value = strict_real value
  strict_value_of blob_type value = strict_blob value

  abbrev pub unknown_unless_null : Text → SqlValue R → Result (SqlValue R)
  unknown_unless_null type_name null = ok null
  unknown_unless_null type_name value = err (unknown_strict_type table column type_name)

  -- `applyStrictValue`
  unfoldable pub apply_strict_value : (Text → Text) → SqlValue R → Text → Result (SqlValue R)
  unfolding strict_type strict_value_of
  apply_strict_value to_upper value type_name = elim (strict_type (to_upper (trim type_name))) [
    | none ↦ unknown_unless_null type_name value
    | some declared ↦ strict_value_of declared value
  ]
