-- ===== src/Storage/Table/Deleted.antt =====
-- storage/table.ts: what deletion does to the rows.
use mathlib.Core.Path.{subst}
use sqlite_mem.Prelude.{◌≡◌, refl, ap, Text, Bool, true, false, Option, none, some}
use sqlite_mem.Prelude.Int.{ℤ}
use sqlite_mem.Errors.{ok, bind_ok, returned, ok-injective}
use sqlite_mem.Types.Conversion.{Numbers}
use sqlite_mem.Storage.Table.{
  Row, Table, row_at, delete_row, get, has_row, invalidate_scan, is_some,
}
use sqlite_mem.Storage.Table.Hashes.{unindex_equality}
use sqlite_mem.Storage.Table.Storing.{assert_mutable, move_row}
use sqlite_mem.Storage.Table.Editing.{delete_rowid, delete_found, without_cluster}
use sqlite_mem.Storage.Table.Invariant.{IsNumberedTable}
use sqlite_mem.Storage.Table.Numbering.{without-IsNumbered}
use sqlite_mem.Storage.Table.Changes.{same-IsNumberedTable, unindex_equality-SameRows}

-- A row was deleted.
pub record IsDeleted {R X : Type 0} (key : ℤ) (t t' : Table R X) : Type 0 where
  pub rows : t'.rows ≡ delete_row key t.rows
  pub numbered : IsNumberedTable t → IsNumberedTable t'

-- What a deletion does, as it says whether there was a row.
abbrev pub Deletion : {R X : Type 0} → ℤ → Table R X → Bool → Table R X → Type 0
Deletion key t true t' = (has_row key t ≡ true) × IsDeleted key t t'
Deletion key t false t' = (get key t ≡ none) × (t' ≡ t)

module _ {R X : Type 0} (h : Numbers R) (to_text : R → Text) (to_upper : Text → Text) where
  delete_found-Deletion :
      (key : ℤ) (found : Option (Row R)) (t : Table R X) (done : Bool) (t' : Table R X)
      → row_at key t.rows ≡ found
      → delete_found h to_text to_upper key found t ≡ ok (done, t')
      → Deletion key t done t'
  unfolding delete_found
  delete_found-Deletion key none t done t' there e =
      subst (λ q. Deletion key t q.0 q.1) (ok-injective (false, t) (done, t') e) (there, refl)
  delete_found-Deletion key (some existing) t done t' there e =
      elim (bind_ok (without_cluster h to_text to_upper existing t) _ (done, t') e) [
        | returned clustered gone e1 ↦
            let base = record t { clustered_rows = clustered } in
            elim (bind_ok (unindex_equality to_text to_upper existing base) _ (done, t') e1) [
              | returned s unindexed e2 ↦
                  let same = unindex_equality-SameRows to_text to_upper existing base s unindexed in
                  let deleted : IsDeleted key t (invalidate_scan (move_row key s)) = record {
                    rows = ap (delete_row key) same.rows;
                    numbered = λ n.
                        without-IsNumbered key s.rows s.maximum_rowid s.next_rowid
                          (same-IsNumberedTable base s same n);
                  } in
                  subst (λ q. Deletion key t q.0 q.1)
                    (ok-injective (true, invalidate_scan (move_row key s)) (done, t') e2)
                    (ap is_some there, deleted)
            ]
      ]

  pub delete_rowid-Deletion :
      (key : ℤ) (t : Table R X) (done : Bool) (t' : Table R X)
      → delete_rowid h to_text to_upper key t ≡ ok (done, t')
      → Deletion key t done t'
  unfolding delete_rowid
  delete_rowid-Deletion key t done t' e = elim (bind_ok (assert_mutable t) _ (done, t') e) [
    | returned u writable f ↦ delete_found-Deletion key (row_at key t.rows) t done t' refl f
  ]
