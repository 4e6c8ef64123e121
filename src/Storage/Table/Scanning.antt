-- ===== src/Storage/Table/Scanning.antt =====
-- storage/table.ts: the order in which a table's rows are read, and what else is read of a table.
use Prim.Native.Nat.{Ordering}
use sqlite_mem.Prelude.{
  ℕ, Text, codes, to_lower, Bool, true, false, not, ◌&&◌, ◌||◌, Option, none, some, List, [], ◌∷◌,
  length, if◌then◌else◌,
}
use sqlite_mem.Prelude.Int.{ℤ}
use sqlite_mem.Errors.{Result, ok, err, ◌>>=◌}
use sqlite_mem.Storage.Cow.Maps.{Map, set}
use sqlite_mem.Types.Value.{SqlValue, is_null, affinity_from_type_name}
use sqlite_mem.Types.Conversion.{Numbers}
use sqlite_mem.Types.{compare_with_collation}
use sqlite_mem.Types.Comparison.{compare_ℤ, compare_sql}
use sqlite_mem.Storage.Table.{
  ColumnInfo, Row, Table, unknown, get, is_some, invalidate_scan, clear_equality_hashes,
}
use sqlite_mem.Storage.Table.Columns.{column_offset, cell, cells_by_name, offset_from}
use sqlite_mem.Storage.Table.Rowids.{as_rowid}
use sqlite_mem.Storage.Table.ClusterKeys.{primary_key_columns, make_cluster_key}

-- `rows.values()` of a JavaScript map.
abbrev pub values_of : {K A : Type 0} → List (K × A) → List A
values_of [] = []
values_of ((k, a) ∷ m) = a ∷ values_of m

-- `rowCount`
abbrev pub row_count : {R X : Type 0} → Table R X → ℕ
row_count t = length t.rows

-- `hasColumn`
unfoldable pub has_column : {R X : Type 0} → Text → Table R X → Bool
unfolding offset_from
has_column name t = is_some (column_offset name t.columns)

abbrev pub is_empty : {A : Type 0} → List A → Bool
is_empty [] = true
is_empty (a ∷ bs) = false

-- `isUnconstrained`, on the columns and on the table.
abbrev pub all_free : {X : Type 0} → List (ColumnInfo X) → Bool
all_free [] = true
all_free (c ∷ cs) =
    not (c.not_null || c.primary_key || c.unique || is_some c.generated || is_some c.default_expr)
    && all_free cs

unfoldable pub is_unconstrained : {R X : Type 0} → Table R X → Bool
is_unconstrained t =
    not (t.without_rowid || t.strict || not (is_empty t.indexes) || not (is_empty t.constraints))
    && all_free t.columns

abbrev pub or_none : {A B : Type 0} → Result A → (A → Option B) → Option B
or_none (ok a) f = f a
or_none (err thrown) f = none

-- `getByKey`: what is no rowid has no row.
unfoldable pub get_by_key : {R X : Type 0} → SqlValue R → Table R X → Option (Row R)
get_by_key value t =
    if is_null value || t.without_rowid
    then none
    else or_none (as_rowid value (codes "rowid")) (λ rowid. get rowid t)

-- `rowFromNamed`
unfoldable pub row_from_named : {R X : Type 0} → Map (SqlValue R) → ℤ → Table R X → Row R
unfolding cells_by_name
row_from_named values rowid t = record { rowid = rowid; values = cells_by_name values t.columns }

-- `makeColumnInfo`: the options are the fields of `given`, but for its name, type and affinity.
abbrev pub make_column_info :
    {X : Type 0} → (Text → Text) → Text → Option Text → ColumnInfo X → ColumnInfo X
make_column_info to_upper name type_name given = record given {
  name = name;
  type_name = type_name;
  affinity = affinity_from_type_name to_upper type_name;
}

-- A stable sort, whose comparison may throw.
module _ {A : Type 0} (compare_rows : A → A → Result Ordering) where
  unfoldable pub insert_row : A → List A → Result (List A)
  insert_row a [] = ok (a ∷ [])
  insert_row a (b ∷ bs) = compare_rows a b >>= λ o. elim o [
    | Ordering.gt ↦ insert_row a bs >>= λ rest. ok (b ∷ rest)
    | _ ↦ ok (a ∷ b ∷ bs)
  ]

  unfoldable pub sort_rows : List A → Result (List A)
  unfolding insert_row
  sort_rows [] = ok []
  sort_rows (a ∷ bs) = sort_rows bs >>= λ rest. insert_row a rest

abbrev pub compare_heap : {R : Type 0} → Row R → Row R → Result Ordering
compare_heap left right = ok (compare_ℤ left.rowid right.rowid)

-- `sortedRows`
unfoldable pub sorted_rows : {R X : Type 0} → Table R X → Result (List (Row R))
unfolding sort_rows
sorted_rows t = sort_rows compare_heap (values_of t.rows)

module _ {R X : Type 0} (h : Numbers R) (to_upper : Text → Text) where
  abbrev pub compare_cells : ColumnInfo X → SqlValue R → SqlValue R → Result (Option Ordering)
  compare_cells c left right = elim c.collate [
    | none ↦ ok (compare_sql h.doubles left right)
    | some name ↦ compare_with_collation to_upper h.doubles left right name
  ]

  -- `comparePrimaryKeys`
  unfoldable pub compare_primary_keys :
      List (ColumnInfo X) → List (ColumnInfo X) → Row R → Row R → Result Ordering
  unfolding cell compare_sql compare_with_collation
  compare_primary_keys columns [] left right = ok Ordering.eq
  compare_primary_keys columns (c ∷ cs) left right =
      let key = to_lower c.name in
      let rest = compare_primary_keys columns cs left right in
      compare_cells c (cell left.values key columns) (cell right.values key columns)
      >>= λ comparison. elim comparison [
        | none ↦ ok Ordering.eq
        | some o ↦ elim o [
          | Ordering.eq ↦ rest
          | Ordering.lt ↦ ok Ordering.lt
          | Ordering.gt ↦ ok Ordering.gt
        ]
      ]

  abbrev pub compare_clustered : Table R X → Row R → Row R → Result Ordering
  compare_clustered t left right = primary_key_columns t.columns t.constraints >>= λ keys.
      compare_primary_keys t.columns keys left right

  -- `scan`, which keeps the order that it found.
  unfoldable pub scan : Table R X → Result (List (Row R) × Table R X)
  unfolding sort_rows compare_primary_keys primary_key_columns
  scan t = elim t.scan_cache [
    | some rows ↦ ok (rows, t)
    | none ↦
        (if t.without_rowid
          then sort_rows (compare_clustered t) (values_of t.clustered_rows)
          else sort_rows compare_heap (values_of t.rows))
        >>= λ rows. ok (rows, record t { scan_cache = some rows })
  ]

  -- `rebuildClusteredRows`
  unfoldable pub cluster_rows : Map (Row R) → List (Row R) → Table R X → Result (Map (Row R))
  unfolding make_cluster_key set
  cluster_rows clustered [] t = ok clustered
  cluster_rows clustered (row ∷ rows) t = make_cluster_key h to_upper row.values t >>= λ key.
      cluster_rows (set key row clustered) rows t

  unfoldable pub rebuild_clustered_rows : Table R X → Result (Table R X)
  unfolding cluster_rows
  rebuild_clustered_rows t =
      let forgot = record t { maximum_rowid = unknown } in
      if t.without_rowid
      then (cluster_rows [] (values_of t.rows) forgot >>= λ clustered.
          ok (
            clear_equality_hashes (invalidate_scan (record forgot { clustered_rows = clustered }))))
      else ok forgot
