-- ===== src/Storage/Table/Columns.antt =====
-- storage/table.ts and storage/row.ts: the cells of a row by the names of the columns.
use sqlite_mem.Prelude.{
  ℕ, zero, suc, Text, codes, text_eq, to_lower, Bool, false, ◌&&◌, Option, none, some, List, [],
  ◌∷◌, ◌++◌, length, get_elem?, if◌then◌else◌, ◌==◌,
}
use sqlite_mem.Errors.{Result, ok, err, ◌>>=◌, sqlite_error, SqliteError, no_such_column}
use sqlite_mem.Storage.Cow.Maps.{Map, lookup, set}
use sqlite_mem.Types.Value.{SqlValue, null}
use sqlite_mem.Types.Conversion.{Numbers, apply_affinity, trim}
use sqlite_mem.Types.Strict.{apply_strict_value}
use sqlite_mem.Storage.Table.{ColumnInfo, Table, is_some}

-- `RowValues`: one value for each column, or values by name.
pub data RowValues (R : Type 0) : Type 0 where
  cells : List (SqlValue R) → RowValues R
  named : Map (SqlValue R) → RowValues R

module _ {R : Type 0} where
  -- `rowValues`: the names in small letters, of which the last one counts.
  unfoldable pub row_values : Map (SqlValue R) → Map (SqlValue R) → Map (SqlValue R)
  unfolding set
  row_values result [] = result
  row_values result ((name, value) ∷ entries) =
      row_values (set (to_lower name) value result) entries

  abbrev pub or_null : Option (SqlValue R) → SqlValue R
  or_null none = null
  or_null (some v) = v

  -- values[i] = value
  unfoldable pub set_at : ℕ → SqlValue R → List (SqlValue R) → List (SqlValue R)
  set_at i value [] = []
  set_at zero value (v ∷ vs) = value ∷ vs
  set_at (suc i) value (v ∷ vs) = v ∷ set_at i value vs

abbrev pub no_column : Text → SqliteError
no_column name = sqlite_error (codes "no such column: " ++ name) no_such_column

abbrev pub is_integer_type : (Text → Text) → Option Text → Bool
is_integer_type to_upper none = false
is_integer_type to_upper (some t) = text_eq (to_upper (trim t)) (codes "INTEGER")

abbrev pub or_empty : Option Text → Text
or_empty none = []
or_empty (some t) = t

module _ {X : Type 0} where
  -- `colIndex`: of two columns with one name the last.
  unfoldable pub offset_from : ℕ → Text → List (ColumnInfo X) → Option ℕ
  unfolding text_eq
  offset_from i name [] = none
  offset_from i name (c ∷ cs) =
      let rest = offset_from (suc i) name cs in
      if is_some rest then rest else if text_eq (to_lower c.name) name then some i else none

  -- `columnOffset`
  abbrev pub column_offset : Text → List (ColumnInfo X) → Option ℕ
  column_offset name columns = offset_from 0 name columns

  -- this.columns.find(…), by the name in small letters.
  unfoldable pub find_column : Text → List (ColumnInfo X) → Option (ColumnInfo X)
  unfolding text_eq
  find_column key [] = none
  find_column key (c ∷ cs) = if text_eq (to_lower c.name) key then some c else find_column key cs

  -- `column`
  unfoldable pub column : Text → List (ColumnInfo X) → Result (ColumnInfo X)
  unfolding find_column
  column name columns = elim (find_column (to_lower name) columns) [
    | none ↦ err (no_column name)
    | some c ↦ ok c
  ]

  abbrev pub primary_columns : List (ColumnInfo X) → List (ColumnInfo X)
  primary_columns [] = []
  primary_columns (c ∷ cs) = if c.primary_key then c ∷ primary_columns cs else primary_columns cs

module _ {R X : Type 0} where
  -- `cell`
  unfoldable pub cell : List (SqlValue R) → Text → List (ColumnInfo X) → SqlValue R
  unfolding offset_from
  cell values name columns = elim (column_offset name columns) [
    | none ↦ null
    | some i ↦ or_null (get_elem? values i)
  ]

  -- `setCell`
  unfoldable pub set_cell :
      List (SqlValue R) → Text → SqlValue R → List (ColumnInfo X) → Result (List (SqlValue R))
  unfolding offset_from set_at
  set_cell values name value columns = elim (column_offset name columns) [
    | none ↦ err (no_column name)
    | some i ↦ ok (set_at i value values)
  ]

  -- `namedFromArray`
  unfoldable pub named_from_array :
      Map (SqlValue R) → List (ColumnInfo X) → List (SqlValue R) → Map (SqlValue R)
  unfolding set
  named_from_array result [] values = result
  named_from_array result (c ∷ cs) [] = named_from_array (set (to_lower c.name) null result) cs []
  named_from_array result (c ∷ cs) (v ∷ vs) =
      named_from_array (set (to_lower c.name) v result) cs vs

  -- for (const name of supplied.keys()) this.column(name)
  unfoldable pub check_names : Map (SqlValue R) → List (ColumnInfo X) → Result (Unit {0})
  unfolding column
  check_names [] columns = ok tt
  check_names ((name, v) ∷ entries) columns =
      column name columns >>= λ c. check_names entries columns

  -- The values of the columns by their names.
  unfoldable pub cells_by_name : Map (SqlValue R) → List (ColumnInfo X) → List (SqlValue R)
  unfolding lookup
  cells_by_name supplied [] = []
  cells_by_name supplied (c ∷ cs) =
      or_null (lookup (to_lower c.name) supplied) ∷ cells_by_name supplied cs

-- `integerPrimaryKeyAlias`: the only column of the primary key, if it is declared INTEGER.
module _ {X : Type 0} (to_upper : Text → Text) where
  abbrev pub only_integer : List (ColumnInfo X) → Option (ColumnInfo X)
  only_integer [] = none
  only_integer (c ∷ []) = if is_integer_type to_upper c.type_name then some c else none
  only_integer (c ∷ d ∷ cs) = none

  unfoldable pub integer_primary_key_alias : {R : Type 0} → Table R X → Option (ColumnInfo X)
  unfolding text_eq
  integer_primary_key_alias t =
      if t.without_rowid then none else only_integer (primary_columns t.columns)

module _ {R X : Type 0} (h : Numbers R) (to_upper : Text → Text) where
  -- `prepareValues`, for one column.
  unfoldable pub prepare_value : Text → Bool → ColumnInfo X → SqlValue R → Result (SqlValue R)
  unfolding apply_affinity apply_strict_value
  prepare_value table strict c value =
      let affined = apply_affinity h value c.affinity in
      if strict
      then apply_strict_value h table c.name to_upper affined (or_empty c.type_name)
      else ok affined

  unfoldable pub prepare_cells :
      Text → Bool → Map (SqlValue R) → List (ColumnInfo X) → Result (List (SqlValue R))
  unfolding prepare_value lookup
  prepare_cells table strict supplied [] = ok []
  prepare_cells table strict supplied (c ∷ cs) =
      prepare_value table strict c (or_null (lookup (to_lower c.name) supplied)) >>= λ v.
      prepare_cells table strict supplied cs >>= λ vs. ok (v ∷ vs)

  -- `prepareValues`
  unfoldable pub prepare_values : Map (SqlValue R) → Table R X → Result (List (SqlValue R))
  unfolding row_values check_names prepare_cells
  prepare_values input t =
      let supplied = row_values [] input in
      check_names supplied t.columns >>= λ u. prepare_cells t.name t.strict supplied t.columns

  -- `cellsFromInput`
  unfoldable pub cells_from_input : RowValues R → Bool → Table R X → Result (List (SqlValue R))
  unfolding prepare_values named_from_array row_values cells_by_name
  cells_from_input (cells input) prepared t =
      if prepared && (length input == length t.columns)
      then ok input
      else prepare_values (named_from_array [] t.columns input) t
  cells_from_input (named input) prepared t =
      if prepared
      then ok (cells_by_name (row_values [] input) t.columns)
      else prepare_values input t
