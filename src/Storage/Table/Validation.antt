-- ===== src/Storage/Table/Validation.antt =====
-- storage/table.ts: what a row must satisfy.
use Prim.Native.Nat.{Ordering}
use sqlite_mem.Prelude.{
  Text, codes, to_lower, Bool, true, false, ◌&&◌, ◌||◌, Option, none, some, List, [], ◌∷◌, ◌++◌,
  if◌then◌else◌,
}
use sqlite_mem.Prelude.Int.{ℤ, eqb_ℤ}
use sqlite_mem.Errors.{
  Result, ok, err, ◌>>=◌, SqliteError, constraint_primary, constraint_notnull, constraint_unique,
}
use sqlite_mem.Types.Value.{SqlValue, is_null}
use sqlite_mem.Types.Conversion.{Numbers}
use sqlite_mem.Types.{compare_with_collation}
use sqlite_mem.Storage.Table.{
  ColumnInfo, TableConstraint, unique_constraint, primary_constraint, other_constraint, Rows, Table,
}
use sqlite_mem.Storage.Table.Columns.{column, cell, primary_columns}

-- "a, b" of "t.a, t.b"
abbrev pub qualified : Text → List Text → Text
qualified table [] = []
qualified table (c ∷ []) = table ++ (codes "." ++ c)
qualified table (c ∷ d ∷ cs) =
    (table ++ (codes "." ++ c)) ++ (codes ", " ++ qualified table (d ∷ cs))

abbrev pub unique_conflict : Text → List Text → SqliteError
unique_conflict table names = record {
  message = codes "UNIQUE constraint failed: " ++ qualified table names;
  category = constraint_unique;
  sqlite_code = "SQLITE_CONSTRAINT_UNIQUE";
}

-- `primaryKeyConflict`
abbrev pub primary_key_conflict : Text → List Text → SqliteError
primary_key_conflict table names = record {
  message = codes "UNIQUE constraint failed: " ++ qualified table names;
  category = constraint_primary;
  sqlite_code = "SQLITE_CONSTRAINT_PRIMARYKEY";
}

abbrev pub null_conflict : {X : Type 0} → Text → ColumnInfo X → SqliteError
null_conflict table c =
    if c.primary_key
    then record {
      message = codes "PRIMARY KEY constraint failed: " ++ (table ++ (codes "." ++ c.name));
      category = constraint_primary;
      sqlite_code = "SQLITE_CONSTRAINT_PRIMARYKEY";
    }
    else record {
      message = codes "NOT NULL constraint failed: " ++ (table ++ (codes "." ++ c.name));
      category = constraint_notnull;
      sqlite_code = "SQLITE_CONSTRAINT_NOTNULL";
    }

abbrev pub names_of : {X : Type 0} → List (ColumnInfo X) → List Text
names_of [] = []
names_of (c ∷ cs) = c.name ∷ names_of cs

-- `uniqueColumnSets`
abbrev pub unique_columns : {X : Type 0} → List (ColumnInfo X) → List (List Text)
unique_columns [] = []
unique_columns (c ∷ cs) = if c.unique then (c.name ∷ []) ∷ unique_columns cs else unique_columns cs

abbrev pub has_primary : List TableConstraint → Bool
has_primary [] = false
has_primary (primary_constraint names ∷ cs) = true
has_primary (unique_constraint names ∷ cs) = has_primary cs
has_primary (other_constraint ∷ cs) = has_primary cs

abbrev pub key_constraints : List TableConstraint → List (List Text)
key_constraints [] = []
key_constraints (unique_constraint names ∷ cs) = names ∷ key_constraints cs
key_constraints (primary_constraint names ∷ cs) = names ∷ key_constraints cs
key_constraints (other_constraint ∷ cs) = key_constraints cs

abbrev pub primary_set :
    {X : Type 0} → List (ColumnInfo X) → List TableConstraint → List (List Text)
primary_set columns constraints =
    if has_primary constraints
    then []
    else elim (primary_columns columns) [ [] ↦ [] | c ∷ cs ↦ names_of (c ∷ cs) ∷ [] ]

unfoldable pub unique_column_sets :
    {X : Type 0} → List (ColumnInfo X) → List TableConstraint → List (List Text)
unique_column_sets columns constraints =
    unique_columns columns ++ (primary_set columns constraints ++ key_constraints constraints)

abbrev pub collation_of : {X : Type 0} → ColumnInfo X → Text
collation_of c = elim c.collate [ none ↦ codes "BINARY" | some name ↦ name ]

abbrev pub is_equal : Option Ordering → Bool
is_equal (some Ordering.eq) = true
is_equal o = false

abbrev pub is_excluded : Option ℤ → ℤ → Bool
is_excluded none id = false
is_excluded (some excluded) id = eqb_ℤ id excluded

abbrev pub any_null : {R X : Type 0} → List (ColumnInfo X) → List (SqlValue R) → List Text → Bool
any_null columns values [] = false
any_null columns values (name ∷ names) =
    is_null (cell values (to_lower name) columns) || any_null columns values names

module _ {R X : Type 0} (h : Numbers R) (to_upper : Text → Text) where
  -- The loop over the columns: none that is NOT NULL or of the primary key is null.
  unfoldable pub check_nulls : Text → List (ColumnInfo X) → List (SqlValue R) → Result (Unit {0})
  check_nulls table [] values = ok tt
  check_nulls table (c ∷ cs) [] =
      if c.not_null || c.primary_key then err (null_conflict table c) else check_nulls table cs []
  check_nulls table (c ∷ cs) (v ∷ vs) =
      if (c.not_null || c.primary_key) && is_null v
      then err (null_conflict table c)
      else check_nulls table cs vs

  -- `values.every(…)`: equal to another row in each column, by the column's collation.
  unfoldable pub same_in :
      List (ColumnInfo X) → List (SqlValue R) → List (SqlValue R) → List Text → Result Bool
  unfolding cell column compare_with_collation
  same_in columns values others [] = ok true
  same_in columns values others (name ∷ names) = column name columns >>= λ c.
      compare_with_collation to_upper h.doubles (cell values (to_lower name) columns)
        (cell others (to_lower name) columns) (collation_of c)
      >>= λ comparison. elim (is_equal comparison) [
        | true ↦ same_in columns values others names
        | false ↦ ok false
      ]

  -- The loop over the other rows.
  unfoldable pub check_set :
      Text
      → List (ColumnInfo X)
      → List (SqlValue R)
      → Option ℤ
      → List Text
      → Rows R
      → Result (Unit {0})
  unfolding same_in
  check_set table columns values excluded names [] = ok tt
  check_set table columns values excluded names ((id, other) ∷ rows) =
      elim (is_excluded excluded other.rowid) [
        | true ↦ check_set table columns values excluded names rows
        | false ↦ same_in columns values other.values names >>= λ same. elim same [
          | true ↦ err (unique_conflict table names)
          | false ↦ check_set table columns values excluded names rows
        ]
      ]

  unfoldable pub check_sets :
      Text
      → List (ColumnInfo X)
      → List (SqlValue R)
      → Option ℤ
      → Rows R
      → List (List Text)
      → Result (Unit {0})
  unfolding check_set cell
  check_sets table columns values excluded rows [] = ok tt
  check_sets table columns values excluded rows (names ∷ sets) =
      (if any_null columns values names
        then ok tt
        else check_set table columns values excluded names rows)
      >>= λ u. check_sets table columns values excluded rows sets

  -- `validate`: where there are indexes, they see to uniqueness.
  unfoldable pub validate : List (SqlValue R) → Option ℤ → Table R X → Result (Unit {0})
  unfolding check_nulls check_sets unique_column_sets
  validate values excluded t = check_nulls t.name t.columns values >>= λ u. elim t.indexes [
    | [] ↦
        check_sets t.name t.columns values excluded t.rows
          (unique_column_sets t.columns t.constraints)
    | i ∷ is ↦ ok tt
  ]
