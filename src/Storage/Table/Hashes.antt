-- ===== src/Storage/Table/Hashes.antt =====
-- storage/table.ts: the equality hashes, which find the rows of a column's value without a scan.
use sqlite_mem.Prelude.{
  Text, codes, Bool, true, false, ◌||◌, Option, none, some, List, [], ◌∷◌, ◌++◌, length,
  if◌then◌else◌, ltb,
}
use sqlite_mem.Prelude.Int.{ℤ}
use sqlite_mem.Errors.{Result, ok, ◌>>=◌}
use sqlite_mem.Storage.Cow.Maps.{Map, lookup, set, delete}
use sqlite_mem.Types.Value.{SqlValue}
use sqlite_mem.Types.{normalize_for_collation}
use sqlite_mem.Indexes.Keys.{serialize_index_key}
use sqlite_mem.Indexes.{any_same, without, is_nil}
use sqlite_mem.Storage.Table.{ColumnInfo, Row, Rows, Table, row_at}
use sqlite_mem.Storage.Table.Columns.{find_column, cell}

abbrev pub or_binary : {X : Type 0} → Option (ColumnInfo X) → Text
or_binary none = codes "BINARY"
or_binary (some c) = elim c.collate [ none ↦ codes "BINARY" | some name ↦ name ]

abbrev pub bucket_of : Option (List ℤ) → List ℤ
bucket_of none = []
bucket_of (some ids) = ids

-- A rowid into the bucket of a key, once.
unfoldable pub add_to_bucket : Text → ℤ → Map (List ℤ) → Map (List ℤ)
unfolding lookup set any_same
add_to_bucket key id buckets =
    let ids = bucket_of (lookup key buckets) in
    if any_same id ids then buckets else set key (ids ++ id ∷ []) buckets

-- A rowid out of the bucket of a key; an empty bucket goes.
unfoldable pub take_from_bucket : Text → ℤ → Map (List ℤ) → Map (List ℤ)
unfolding lookup set delete without
take_from_bucket key id buckets = elim (lookup key buckets) [
  | none ↦ buckets
  | some ids ↦
      let kept = without id ids in if is_nil kept then delete key buckets else set key kept buckets
]

abbrev pub hashes_of : Option (Map (Map (List ℤ))) → Map (Map (List ℤ))
hashes_of none = []
hashes_of (some hashes) = hashes

abbrev pub bucket_map : Option (Map (List ℤ)) → Map (List ℤ)
bucket_map none = []
bucket_map (some m) = m

-- The rows of rowids that are there.
unfoldable pub rows_of : {R : Type 0} → List ℤ → Rows R → List (Row R)
unfolding row_at
rows_of [] rows = []
rows_of (id ∷ ids) rows = elim (row_at id rows) [
  | none ↦ rows_of ids rows
  | some row ↦ row ∷ rows_of ids rows
]

module _ {R X : Type 0} (to_text : R → Text) (to_upper : Text → Text) where
  -- The key of a column's value in a row; a null has none.
  unfoldable pub equality_key : List (ColumnInfo X) → Text → SqlValue R → Result (Option Text)
  unfolding normalize_for_collation serialize_index_key find_column
  equality_key columns column value =
      normalize_for_collation to_upper value (or_binary (find_column column columns)) >>= λ v.
      ok (serialize_index_key to_text (v ∷ []))

  -- `indexEquality` and `unindexEquality`, on the hash of each column.
  unfoldable pub change_hashes :
      (Text → ℤ → Map (List ℤ) → Map (List ℤ))
      → List (ColumnInfo X)
      → Row R
      → Map (Map (List ℤ))
      → Result (Map (Map (List ℤ)))
  unfolding equality_key cell
  change_hashes change columns row [] = ok []
  change_hashes change columns row ((column, buckets) ∷ hashes) =
      equality_key columns column (cell row.values column columns) >>= λ key.
      change_hashes change columns row hashes >>= λ rest. ok (elim key [
        | none ↦ (column, buckets) ∷ rest
        | some k ↦ (column, change k row.rowid buckets) ∷ rest
      ])

  -- if (!this.equalityHashes) return
  abbrev pub change_cached :
      (Text → ℤ → Map (List ℤ) → Map (List ℤ))
      → List (ColumnInfo X)
      → Row R
      → Option (Map (Map (List ℤ)))
      → Result (Option (Map (Map (List ℤ))))
  change_cached change columns row none = ok none
  change_cached change columns row (some hashes) =
      change_hashes change columns row hashes >>= λ changed. ok (some changed)

  abbrev pub with_hashes :
      (Text → ℤ → Map (List ℤ) → Map (List ℤ)) → Row R → Table R X → Result (Table R X)
  with_hashes change row t = change_cached change t.columns row t.equality_hashes >>= λ changed.
      ok (record t { equality_hashes = changed })

  unfoldable pub index_equality : Row R → Table R X → Result (Table R X)
  unfolding change_hashes add_to_bucket
  index_equality row t = with_hashes add_to_bucket row t

  unfoldable pub unindex_equality : Row R → Table R X → Result (Table R X)
  unfolding change_hashes take_from_bucket
  unindex_equality row t = with_hashes take_from_bucket row t

  -- The hash of a column over the rows, each into the bucket of its key at the end.
  unfoldable pub build_hash :
      List (ColumnInfo X) → Text → Map (List ℤ) → Rows R → Result (Map (List ℤ))
  unfolding equality_key cell lookup set
  build_hash columns column buckets [] = ok buckets
  build_hash columns column buckets ((id, row) ∷ rows) =
      equality_key columns column (cell row.values column columns) >>= λ key.
      build_hash columns column
        (elim key [
          | none ↦ buckets
          | some k ↦ set k (bucket_of (lookup k buckets) ++ row.rowid ∷ []) buckets
        ])
        rows

  -- `ensureEqualityHash`: from 16 rows on, unless the table is frozen.
  unfoldable pub ensure_equality_hash : Text → Table R X → Result (Bool × Table R X)
  unfolding build_hash lookup set find_column
  ensure_equality_hash column t =
      let hashes = hashes_of t.equality_hashes in
      if t.frozen || ltb (length t.rows) 16
      then ok (false, t)
      else elim (find_column column t.columns) [
        | none ↦ ok (false, t)
        | some c ↦ elim (lookup column hashes) [
          | some buckets ↦ ok (true, record t { equality_hashes = some hashes })
          | none ↦ build_hash t.columns column [] t.rows >>= λ buckets.
              ok (true, record t { equality_hashes = some (set column buckets hashes) })
        ]
      ]

  -- `lookupEquality`: `none` where there is no hash.
  unfoldable pub lookup_equality :
      Text → SqlValue R → Table R X → Result (Option (List (Row R)) × Table R X)
  unfolding ensure_equality_hash equality_key rows_of lookup
  lookup_equality column value t = ensure_equality_hash column t >>= λ (there, t').
      if there
      then (equality_key t'.columns column value >>= λ key. ok (elim key [
        | none ↦ (some [], t')
        | some k ↦ (
          some (
              rows_of
                (bucket_of (lookup k (bucket_map (lookup column (hashes_of t'.equality_hashes)))))
                t'.rows),
          t',
        )
      ]))
      else ok (none, t')
