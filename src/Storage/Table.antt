-- ===== src/Storage/Table.antt =====
-- storage/table.ts: a table's columns, its rows by rowid, and what is cached of them. Tables that still
-- hold the columnar slab of a snapshot are left out; the map from names to columns, which the source
-- keeps, is computed from the columns.
pub mod Rowids
pub mod Columns
pub mod Hashes
pub mod Validation
pub mod ClusterKeys
pub mod Storing
pub mod Editing
pub mod Scanning
pub mod RowMaps
pub mod RowidOrder
pub mod Invariant
pub mod Numbering
pub mod Allocation
pub mod Changes
pub mod Inserted
pub mod Updated
pub mod Deleted
pub mod Edits
mod Runs
use sqlite_mem.Prelude.{
  ℕ, zero, suc, ◌+◌, Text, codes, text_eq, to_lower, Bool, true, false, ◌||◌, Option, none, some,
  List, [], ◌∷◌, if◌then◌else◌,
}
use sqlite_mem.Prelude.Int.{ℤ, pos, negsuc, eqb_ℤ}
use sqlite_mem.Storage.Cow.Maps.{Map}
use sqlite_mem.Types.Value.{SqlValue, Affinity}

-- `ColumnInfo`; `X` are the expressions of defaults and of generated columns.
pub record ColumnInfo (X : Type 0) : Type 0 where
  pub name : Text
  pub type_name : Option Text
  pub affinity : Affinity
  pub not_null : Bool
  pub primary_key : Bool
  pub autoincrement : Bool
  pub default_expr : Option X
  pub unique : Bool
  pub collate : Option Text
  pub generated : Option (X × Bool)

-- `TableConstraint`: the columns of a unique or primary key constraint, or another constraint.
pub data TableConstraint : Type 0 where
  unique_constraint primary_constraint : List Text → TableConstraint
  other_constraint : TableConstraint

-- `Row`. A rowid is compared by its value, whether it is a number or a BigInt.
pub record Row (R : Type 0) : Type 0 where
  pub rowid : ℤ
  pub values : List (SqlValue R)

-- JavaScript's `Map` from rowids to rows, in insertion order.
abbrev pub Rows : Type 0 → Type 0
Rows R = List (ℤ × Row R)

module _ {R : Type 0} where
  -- rows.get(k)
  unfoldable pub row_at : ℤ → Rows R → Option (Row R)
  row_at k [] = none
  row_at k ((j, row) ∷ rows) = if eqb_ℤ j k then some row else row_at k rows

  -- rows.set(k, row)
  unfoldable pub set_row : ℤ → Row R → Rows R → Rows R
  set_row k row [] = (k, row) ∷ []
  set_row k row ((j, old) ∷ rows) =
      if eqb_ℤ j k then (j, row) ∷ rows else (j, old) ∷ set_row k row rows

  -- rows.delete(k)
  unfoldable pub delete_row : ℤ → Rows R → Rows R
  delete_row k [] = []
  delete_row k ((j, row) ∷ rows) = if eqb_ℤ j k then rows else (j, row) ∷ delete_row k rows

-- `maximumRowid`: undefined after the row with the maximum was deleted, and null at first.
pub data Maximum : Type 0 where
  unknown nothing : Maximum
  maximum : ℤ → Maximum

-- `Table`. `equality_hashes` has for a column the rowids by the key of its value.
pub record Table (R X : Type 0) : Type 0 where
  pub name : Text
  pub columns : List (ColumnInfo X)
  pub rows : Rows R
  pub next_rowid : ℤ
  pub constraints : List TableConstraint
  pub indexes : List Text
  pub original_sql : Option Text
  pub without_rowid : Bool
  pub strict : Bool
  pub clustered_rows : Map (Row R)
  pub scan_cache : Option (List (Row R))
  pub equality_hashes : Option (Map (Map (List ℤ)))
  pub maximum_rowid : Maximum
  pub frozen : Bool

-- `TableOptions`, all given.
pub record TableOptions : Type 0 where
  pub constraints : List TableConstraint
  pub indexes : List Text
  pub original_sql : Option Text
  pub without_rowid : Bool
  pub strict : Bool

abbrev pub new_table : {R X : Type 0} → Text → List (ColumnInfo X) → TableOptions → Table R X
new_table name columns options = record {
  name = name;
  columns = columns;
  rows = [];
  next_rowid = pos 1;
  constraints = options.constraints;
  indexes = options.indexes;
  original_sql = options.original_sql;
  without_rowid = options.without_rowid;
  strict = options.strict;
  clustered_rows = [];
  scan_cache = none;
  equality_hashes = none;
  maximum_rowid = nothing;
  frozen = false;
}

-- `clone` copies the rows and the cached maximum, and no hashes.
abbrev pub clone : {R X : Type 0} → Table R X → Table R X
clone t = record t { scan_cache = none; equality_hashes = none; frozen = false }

abbrev pub freeze : {R X : Type 0} → Table R X → Table R X
freeze t = record t { frozen = true }

-- `clearEqualityHashes` and `invalidateScan`
abbrev pub clear_equality_hashes : {R X : Type 0} → Table R X → Table R X
clear_equality_hashes t = record t { equality_hashes = none }

abbrev pub invalidate_scan : {R X : Type 0} → Table R X → Table R X
invalidate_scan t = record t { scan_cache = none }

-- `get`
abbrev pub get : {R X : Type 0} → ℤ → Table R X → Option (Row R)
get rowid t = row_at rowid t.rows

abbrev pub is_some : {A : Type 0} → Option A → Bool
is_some none = false
is_some (some a) = true

-- `hasRow`
abbrev pub has_row : {R X : Type 0} → ℤ → Table R X → Bool
has_row rowid t = is_some (get rowid t)
