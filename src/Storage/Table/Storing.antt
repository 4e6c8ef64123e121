-- ===== src/Storage/Table/Storing.antt =====
-- storage/table.ts: the steps that insertion, update and deletion share.
use sqlite_mem.Prelude.{
  Text, codes, text_eq, to_lower, Bool, not, ◌&&◌, Option, none, some, List, ◌++◌, length,
  if◌then◌else◌, ◌==◌,
}
use sqlite_mem.Prelude.Int.{ℤ}
use sqlite_mem.Errors.{Result, ok, err, ◌>>=◌, sqlite_error, other}
use sqlite_mem.Storage.Cow.Maps.{Map, lookup}
use sqlite_mem.Types.Value.{SqlValue, null, is_null}
use sqlite_mem.Storage.Table.{
  ColumnInfo, Row, Table, Maximum, set_row, delete_row, is_some, invalidate_scan,
}
use sqlite_mem.Storage.Table.Rowids.{
  as_rowid, rowid_value, allocate_rowid, advance_next_rowid, maximum_without,
}
use sqlite_mem.Storage.Table.Columns.{cell, set_cell}
use sqlite_mem.Storage.Table.Hashes.{index_equality, unindex_equality}

-- `assertMutable`, of a table without a slab.
abbrev pub assert_mutable : {R X : Type 0} → Table R X → Result (Unit {0})
assert_mutable t =
    if t.frozen
    then err (sqlite_error (codes "internal: cannot mutate a frozen table") other)
    else ok tt

-- `assertRowShape`
unfoldable pub assert_row_shape : {R X : Type 0} → Row R → Table R X → Result (Unit {0})
assert_row_shape row t =
    if length row.values == length t.columns
    then ok tt
    else err (
        sqlite_error
          (codes "internal assertion failed: row.values.length !== table.columns.length for "
            ++ t.name)
          other)

abbrev pub taken_by_other : {R : Type 0} → Text → Text → Map (Row R) → Bool
taken_by_other old new clustered = not (text_eq new old) && is_some (lookup new clustered)

abbrev pub alias_name : {X : Type 0} → Option (ColumnInfo X) → Text
alias_name none = codes "rowid"
alias_name (some c) = c.name

module _ {R X : Type 0} where
  -- The row into `rows`, with what is kept about the rowids.
  abbrev pub store_row : Row R → Table R X → Table R X
  store_row row t = advance_next_rowid row.rowid (record t { rows = set_row row.rowid row t.rows })

  -- The rowid of a new row: the one supplied, that of the alias column, or a new one.
  abbrev pub alias_value :
      Option (ColumnInfo X) → List (SqlValue R) → List (ColumnInfo X) → SqlValue R
  alias_value none values columns = null
  alias_value (some c) values columns = cell values (to_lower c.name) columns

  unfoldable pub choose_rowid : Option ℤ → SqlValue R → Text → Table R X → Result (ℤ × Maximum)
  unfolding allocate_rowid
  choose_rowid (some rowid) value name t = ok (rowid, t.maximum_rowid)
  choose_rowid none value name t =
      if is_null value
      then allocate_rowid t
      else (as_rowid value name >>= λ rowid. ok (rowid, t.maximum_rowid))

  -- The rowid into the alias column.
  abbrev pub set_alias :
      Option (ColumnInfo X)
      → ℤ
      → List (SqlValue R)
      → List (ColumnInfo X)
      → Result (List (SqlValue R))
  set_alias none rowid values columns = ok values
  set_alias (some c) rowid values columns =
      set_cell values (to_lower c.name) (rowid_value rowid) columns

  -- The rowid that an update leaves a row at.
  abbrev pub target_rowid :
      Option (ColumnInfo X) → ℤ → List (SqlValue R) → List (ColumnInfo X) → Result ℤ
  target_rowid none key values columns = ok key
  target_rowid (some c) key values columns = as_rowid (cell values (to_lower c.name) columns) c.name

  -- A row goes from one rowid to another.
  abbrev pub move_row : ℤ → Table R X → Table R X
  move_row key t = record t {
    rows = delete_row key t.rows;
    maximum_rowid = maximum_without key t.maximum_rowid;
  }

module _ {R X : Type 0} (to_text : R → Text) (to_upper : Text → Text) where
  -- `commitRow`
  unfoldable pub commit_row : Row R → Table R X → Result (Table R X)
  unfolding assert_row_shape index_equality
  commit_row row t = assert_row_shape row t >>= λ u.
      index_equality to_text to_upper row t >>= λ t'. ok (invalidate_scan t')

  -- `reindexEquality`
  unfoldable pub reindex_equality : Row R → Row R → Table R X → Result (Table R X)
  unfolding unindex_equality index_equality
  reindex_equality before after t = unindex_equality to_text to_upper before t >>= λ t'.
      index_equality to_text to_upper after t' >>= λ t''. ok (invalidate_scan t'')

  -- The end of an insertion: `rows.set`, `advanceNextRowid` and `commitRow`.
  unfoldable pub add_row : Row R → Table R X → Result (ℤ × Table R X)
  unfolding commit_row set_row
  add_row row t = commit_row row (store_row row t) >>= λ t'. ok (row.rowid, t')
