-- ===== src/Storage/Table/Editing.antt =====
-- storage/table.ts: insertion, update and deletion of rows. What a call that throws has changed
-- before is not modelled.
use sqlite_mem.Prelude.{
  Text, codes, text_eq, to_lower, Bool, true, false, not, ◌&&◌, Option, none, some, List, [], ◌∷◌,
  ◌++◌, if◌then◌else◌,
}
use sqlite_mem.Prelude.Int.{ℤ, eqb_ℤ}
use sqlite_mem.Errors.{Result, ok, err, ◌>>=◌, sqlite_error, other, constraint_unique}
use sqlite_mem.Storage.Cow.Maps.{Map, lookup, set, delete}
use sqlite_mem.Types.Value.{SqlValue}
use sqlite_mem.Types.Conversion.{Numbers, apply_affinity}
use sqlite_mem.Storage.Table.{
  ColumnInfo, Row, Table, row_at, set_row, delete_row, is_some, has_row, invalidate_scan,
}
use sqlite_mem.Storage.Table.Rowids.{allocate_rowid}
use sqlite_mem.Storage.Table.Columns.{
  RowValues, cells, named, row_values, set_at, column, column_offset, cell, set_cell,
  integer_primary_key_alias, cells_from_input, offset_from,
}
use sqlite_mem.Storage.Table.Hashes.{unindex_equality}
use sqlite_mem.Storage.Table.Storing.{
  assert_mutable, taken_by_other, add_row, reindex_equality, store_row, alias_value, alias_name,
  choose_rowid, set_alias, target_rowid, move_row,
}
use sqlite_mem.Storage.Table.Validation.{validate, primary_key_conflict, names_of}
use sqlite_mem.Storage.Table.ClusterKeys.{primary_key_columns, make_cluster_key}

module _ {R X : Type 0} (h : Numbers R) (to_text : R → Text) (to_upper : Text → Text) where
  abbrev pub validate_unless : Bool → List (SqlValue R) → Table R X → Result (Unit {0})
  validate_unless skip values t = if skip then ok tt else validate h to_upper values none t

  -- `insert` into a WITHOUT ROWID table.
  unfoldable pub insert_clustered : List (SqlValue R) → Bool → Table R X → Result (ℤ × Table R X)
  unfolding allocate_rowid validate make_cluster_key primary_key_columns add_row lookup set
  insert_clustered values skip t = allocate_rowid t >>= λ (rowid, found).
      validate_unless skip values t >>= λ u. make_cluster_key h to_upper values t >>= λ key.
      if is_some (lookup key t.clustered_rows)
      then (primary_key_columns t.columns t.constraints >>= λ keys.
          err (primary_key_conflict t.name (names_of keys)))
      else (let candidate : Row R = record { rowid = rowid; values = values } in
          add_row to_text to_upper candidate (record t {
            maximum_rowid = found;
            clustered_rows = set key candidate t.clustered_rows;
          }))

  -- `insert`, behind the preparation of the values.
  unfoldable pub insert_heap :
      Option ℤ → List (SqlValue R) → Bool → Table R X → Result (ℤ × Table R X)
  unfolding integer_primary_key_alias choose_rowid set_cell validate add_row row_at cell
  insert_heap supplied values skip t =
      let alias = integer_primary_key_alias to_upper t in
      choose_rowid supplied (alias_value alias values t.columns) (alias_name alias) t
      >>= λ (rowid, found).
          if has_row rowid t
          then err (primary_key_conflict t.name (codes "rowid" ∷ []))
          else (set_alias alias rowid values t.columns >>= λ stored.
              validate_unless skip stored t >>= λ u.
              let candidate : Row R = record { rowid = rowid; values = stored } in
              add_row to_text to_upper candidate (record t { maximum_rowid = found }))

  -- `insert`
  unfoldable pub insert : Option ℤ → RowValues R → Bool → Bool → Table R X → Result (ℤ × Table R X)
  unfolding cells_from_input insert_clustered insert_heap
  insert supplied input prepared skip t = assert_mutable t >>= λ u.
      cells_from_input h to_upper input prepared t >>= λ values.
      if t.without_rowid
      then (if is_some supplied
          then err (
              sqlite_error (codes "table " ++ (t.name ++ codes " has no column named rowid")) other)
          else insert_clustered values skip t)
      else insert_heap supplied values skip t

  -- The new values of a row: by place, or by name.
  unfoldable pub update_places :
      List (ColumnInfo X) → List (SqlValue R) → List (SqlValue R) → List (SqlValue R)
  unfolding apply_affinity
  update_places columns [] values = values
  update_places [] updates values = values
  update_places (c ∷ cs) (u ∷ us) [] = apply_affinity h u c.affinity ∷ update_places cs us []
  update_places (c ∷ cs) (u ∷ us) (v ∷ vs) = apply_affinity h u c.affinity ∷ update_places cs us vs

  unfoldable pub update_names :
      List (ColumnInfo X) → Map (SqlValue R) → List (SqlValue R) → Result (List (SqlValue R))
  unfolding column offset_from apply_affinity set_at
  update_names columns [] values = ok values
  update_names columns ((name, value) ∷ entries) values = column name columns >>= λ c.
      update_names columns entries (elim (column_offset (to_lower c.name) columns) [
        | none ↦ values
        | some i ↦ set_at i (apply_affinity h value c.affinity) values
      ])

  unfoldable pub updated_values :
      List (ColumnInfo X) → RowValues R → List (SqlValue R) → Result (List (SqlValue R))
  unfolding update_places update_names row_values
  updated_values columns (cells updates) values = ok (update_places columns updates values)
  updated_values columns (named updates) values =
      update_names columns (row_values [] updates) values

  -- `update` of a row of a WITHOUT ROWID table.
  unfoldable pub update_clustered :
      ℤ → Row R → List (SqlValue R) → Table R X → Result (Row R × Table R X)
  unfolding make_cluster_key primary_key_columns validate reindex_equality set_row lookup set delete
      text_eq
  update_clustered key existing values t = make_cluster_key h to_upper existing.values t >>= λ old.
      make_cluster_key h to_upper values t >>= λ new.
      if taken_by_other old new t.clustered_rows
      then (primary_key_columns t.columns t.constraints >>= λ keys.
          err (primary_key_conflict t.name (names_of keys)))
      else (validate h to_upper values (some key) t >>= λ u.
          let candidate : Row R = record { rowid = key; values = values } in
          let others = if text_eq new old then t.clustered_rows else delete old t.clustered_rows in
          reindex_equality to_text to_upper existing candidate (record t {
            clustered_rows = set new candidate others;
            rows = set_row key candidate t.rows;
          })
          >>= λ t'. ok (candidate, t'))

  -- `update`, behind the new values.
  unfoldable pub update_heap :
      ℤ → Row R → List (SqlValue R) → Table R X → Result (Row R × Table R X)
  unfolding integer_primary_key_alias set_cell validate reindex_equality set_row delete_row row_at
      cell
  update_heap key existing values t =
      let alias = integer_primary_key_alias to_upper t in
      target_rowid alias key values t.columns >>= λ target.
      if not (eqb_ℤ target key) && has_row target t
      then err (record (primary_key_conflict t.name (alias_name alias ∷ [])) {
        category = constraint_unique;
        sqlite_code = "SQLITE_CONSTRAINT_UNIQUE";
      })
      else (set_alias alias target values t.columns >>= λ stored.
          validate h to_upper stored (some key) t >>= λ u.
          let candidate : Row R = record { rowid = target; values = stored } in
          reindex_equality to_text to_upper existing candidate
            (store_row candidate (if eqb_ℤ target key then t else move_row key t))
          >>= λ t'. ok (candidate, t'))

  -- `update`, of a row that was looked up.
  unfoldable pub update_found :
      ℤ → RowValues R → Option (Row R) → Table R X → Result (Option (Row R) × Table R X)
  unfolding updated_values update_clustered update_heap
  update_found key updates none t = ok (none, t)
  update_found key updates (some existing) t =
      updated_values t.columns updates existing.values >>= λ values.
      (if t.without_rowid
        then update_clustered key existing values t
        else update_heap key existing values t)
      >>= λ (row, t'). ok (some row, t')

  -- `update`: nothing, where there is no such row.
  unfoldable pub update : ℤ → RowValues R → Table R X → Result (Option (Row R) × Table R X)
  unfolding row_at update_found
  update key updates t = assert_mutable t >>= λ u. update_found key updates (row_at key t.rows) t

  -- `delete`, of a row that was looked up.
  abbrev pub without_cluster : Row R → Table R X → Result (Map (Row R))
  without_cluster existing t =
      if t.without_rowid
      then (make_cluster_key h to_upper existing.values t >>= λ key.
          ok (delete key t.clustered_rows))
      else ok t.clustered_rows

  unfoldable pub delete_found : ℤ → Option (Row R) → Table R X → Result (Bool × Table R X)
  unfolding delete_row make_cluster_key unindex_equality delete
  delete_found key none t = ok (false, t)
  delete_found key (some existing) t = without_cluster existing t >>= λ clustered.
      unindex_equality to_text to_upper existing (record t { clustered_rows = clustered }) >>= λ t'.
      ok (true, invalidate_scan (move_row key t'))

  -- `delete`
  unfoldable pub delete_rowid : ℤ → Table R X → Result (Bool × Table R X)
  unfolding row_at delete_found
  delete_rowid key t = assert_mutable t >>= λ u. delete_found key (row_at key t.rows) t
