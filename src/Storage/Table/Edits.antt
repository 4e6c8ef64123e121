-- ===== src/Storage/Table/Edits.antt =====
-- storage/table.ts: tables as insertions, updates and deletions make them, and what each leaves there.
use sqlite_mem.Prelude.{
  ◌≡◌, refl, ap, sym, ◌∙◌, Text, Bool, Bool-cases, true, false, Option, none, some, List,
  if◌then◌else◌, ◌⊎◌, inl, inr,
}
use sqlite_mem.Prelude.Int.{ℤ, eqb_ℤ}
use sqlite_mem.Errors.{ok, err}
use sqlite_mem.Types.Conversion.{Numbers}
use sqlite_mem.Storage.Table.{
  ColumnInfo, Maximum, Row, Rows, Table, TableOptions, new_table, clone, freeze, row_at, set_row,
  delete_row, get, has_row, is_some,
}
use sqlite_mem.Storage.Table.Columns.{RowValues}
use sqlite_mem.Storage.Table.Editing.{insert, update, delete_rowid}
use sqlite_mem.Storage.Table.RowMaps.{
  row_at-set_row, row_at-set_row_other, row_at-delete_row_other, some_not_none, true_not_false,
}
use sqlite_mem.Storage.Table.Allocation.{
  if_false, if_true, allocated, exhausted, allocate_rowid_cases, next-IsFree,
}
use sqlite_mem.Storage.Table.Rowids.{
  is_above, is_at_least, is_autoincrement, max_signed, full, allocate_rowid,
}
use sqlite_mem.Storage.Table.Invariant.{IsDistinct, IsNumberedTable, row_at-delete_row}
use sqlite_mem.Storage.Table.Changes.{stored-IsNumberedTable}
use sqlite_mem.Storage.Table.Inserted.{insert-IsInserted}
use sqlite_mem.Storage.Table.Updated.{IsUpdated, IsOutcome, missed, updated, update-IsOutcome}
use sqlite_mem.Storage.Table.Deleted.{Deletion, delete_rowid-Deletion}

module _ {R X : Type 0} where
  outcome-IsNumbered :
      {key : ℤ} {t : Table R X} {out : Option (Row R)} {t' : Table R X}
      → IsOutcome key t out t'
      → IsNumberedTable t
      → IsNumberedTable t'
  outcome-IsNumbered (missed gone none_out same) n = rw same n
  outcome-IsNumbered (updated row found there u) n = u.numbered n

  Deletion-IsNumbered :
      (key : ℤ) (t : Table R X) (done : Bool) (t' : Table R X)
      → Deletion key t done t'
      → IsNumberedTable t
      → IsNumberedTable t'
  Deletion-IsNumbered key t true t' (there, d) n = d.numbered n
  Deletion-IsNumbered key t false t' (gone, same) n = rw same n

  created-IsNumbered :
      (name : Text) (columns : List (ColumnInfo X)) (options : TableOptions)
      → IsNumberedTable (new_table {R = R} name columns options)
  unfolding IsDistinct row_at
  created-IsNumbered name columns options = record {
    distinct = tt;
    own = λ k row e. absurd (some_not_none row (sym e));
    bound = λ k. refl;
    below = λ k row e. absurd (some_not_none row (sym e));
  }

  deleted :
      (key : ℤ) (t : Table R X) (done : Bool) (t' : Table R X)
      → Deletion key t done t'
      → IsDistinct t.rows
      → (done ≡ has_row key t)
        × (get key t' ≡ none)
        × ((k : ℤ) → eqb_ℤ key k ≡ false → get k t' ≡ get k t)
  deleted key t true t' (there, d) n = (
    sym there,
    ap (row_at key) d.rows ∙ row_at-delete_row key t.rows n,
    λ k other. ap (row_at k) d.rows ∙ row_at-delete_row_other k key t.rows other,
  )
  deleted key t false t' (gone, same) n =
      (sym (ap is_some gone), ap (λ x. get key x) same ∙ gone, λ k other. ap (λ x. get k x) same)

  -- The rows that an update leaves of the others.
  rest_of : ℤ → Row R → Table R X → Rows R
  rest_of key row t = if eqb_ℤ row.rowid key then t.rows else delete_row key t.rows

  rest_of_other :
      (key k : ℤ) (row : Row R) (t : Table R X)
      → eqb_ℤ key k ≡ false
      → row_at k (rest_of key row t) ≡ row_at k t.rows
  unfolding rest_of
  rest_of_other key k row t other = elim (Bool-cases (eqb_ℤ row.rowid key)) [
    | inl same ↦ ap (row_at k) (if_true _ _ same)
    | inr moved ↦ ap (row_at k) (if_false _ _ moved) ∙ row_at-delete_row_other k key t.rows other
  ]

  replaced_lem :
      (key : ℤ) (t : Table R X) (row : Row R) (t' : Table R X)
      → IsUpdated key t row t'
      → IsDistinct t.rows
      → (get row.rowid t' ≡ some row)
        × (eqb_ℤ row.rowid key ≡ false → (get row.rowid t ≡ none) × (get key t' ≡ none))
        × ((k : ℤ) → eqb_ℤ key k ≡ false → eqb_ℤ row.rowid k ≡ false → get k t' ≡ get k t)
  unfolding rest_of
  replaced_lem key t row t' u n =
      let others = rest_of key row t in
      (
        ap (row_at row.rowid) u.rows ∙ row_at-set_row row.rowid row others,
        λ moved. (
          elim u.free [ inl same ↦ absurd (true_not_false (sym same ∙ moved)) | inr free ↦ free ],
          ap (row_at key) u.rows
              ∙ row_at-set_row_other key row.rowid row others moved
              ∙ ap (row_at key) (if_false _ _ moved)
              ∙ row_at-delete_row key t.rows n,
        ),
        λ k other moved.
            ap (row_at k) u.rows
            ∙ row_at-set_row_other k row.rowid row others moved
            ∙ rest_of_other key k row t other,
      )

module _ {R X : Type 0} (h : Numbers R) (to_text : R → Text) (to_upper : Text → Text) where
  -- The tables that insertions, updates and deletions which return, clones and freezes make of a new one.
  -- We call such a table reached.
  pub data IsReached : Table R X → Type 0 where
    created :
        (name : Text) (columns : List (ColumnInfo X)) (options : TableOptions)
        → IsReached (new_table name columns options)
    cloned : (t : Table R X) → IsReached t → IsReached (clone t)
    froze : (t : Table R X) → IsReached t → IsReached (freeze t)
    inserts :
        (t t' : Table R X) (supplied : Option ℤ) (input : RowValues R) (prepared skip : Bool)
        (id : ℤ)
        → IsReached t
        → insert h to_text to_upper supplied input prepared skip t ≡ ok (id, t')
        → IsReached t'
    updates :
        (t t' : Table R X) (key : ℤ) (values : RowValues R) (out : Option (Row R))
        → IsReached t
        → update h to_text to_upper key values t ≡ ok (out, t')
        → IsReached t'
    deletes :
        (t t' : Table R X) (key : ℤ) (done : Bool)
        → IsReached t
        → delete_rowid h to_text to_upper key t ≡ ok (done, t')
        → IsReached t'

  -- In a reached table no two entries have one rowid, each row stands at its own rowid, no rowid is
  -- above the cached maximum, if that is known, and each is below the next rowid.
  pub reached-IsNumberedTable : (t : Table R X) → IsReached t → IsNumberedTable t
  reached-IsNumberedTable t (created name columns options) = created-IsNumbered name columns options
  reached-IsNumberedTable t (cloned s r) = reached-IsNumberedTable s r
  reached-IsNumberedTable t (froze s r) = reached-IsNumberedTable s r
  reached-IsNumberedTable t (inserts s u supplied input prepared skip id r e) =
      let n = reached-IsNumberedTable s r in
      let i = insert-IsInserted h to_text to_upper supplied input prepared skip s t id n e in
      stored-IsNumberedTable i.row i.found s t i.stored (i.numbered n)
  reached-IsNumberedTable t (updates s u key values out r e) =
      outcome-IsNumbered (update-IsOutcome h to_text to_upper key values s out t e)
        (reached-IsNumberedTable s r)
  reached-IsNumberedTable t (deletes s u key done r e) =
      Deletion-IsNumbered key s done t (delete_rowid-Deletion h to_text to_upper key s done t e)
        (reached-IsNumberedTable s r)

  -- In a reached table an insertion that returns a rowid has put a row with that rowid where there was
  -- none, and every other rowid has the row that it had.
  pub insert-get :
      (supplied : Option ℤ) (input : RowValues R) (prepared skip : Bool) (t t' : Table R X) (id : ℤ)
      → IsReached t
      → insert h to_text to_upper supplied input prepared skip t ≡ ok (id, t')
      → (get id t ≡ none)
        × ((row : Row R) × (row.rowid ≡ id) × (get id t' ≡ some row))
        × ((k : ℤ) → eqb_ℤ id k ≡ false → get k t' ≡ get k t)
  insert-get supplied input prepared skip t t' id r e =
      let i =
        insert-IsInserted h to_text to_upper supplied input prepared skip t t' id
          (reached-IsNumberedTable t r) e in
      let rows : t'.rows ≡ set_row id i.row t.rows =
        i.stored.rows ∙ ap (λ k. set_row k i.row t.rows) i.own in
      (
        i.free,
        (i.row, i.own, ap (row_at id) rows ∙ row_at-set_row id i.row t.rows),
        λ k other. ap (row_at k) rows ∙ row_at-set_row_other k id i.row t.rows other,
      )

  -- In a reached table a deletion that returns says whether there was a row, which is there no more,
  -- and every other rowid has the row that it had.
  pub delete_rowid-get :
      (key : ℤ) (t : Table R X) (done : Bool) (t' : Table R X)
      → IsReached t
      → delete_rowid h to_text to_upper key t ≡ ok (done, t')
      → (done ≡ has_row key t)
        × (get key t' ≡ none)
        × ((k : ℤ) → eqb_ℤ key k ≡ false → get k t' ≡ get k t)
  delete_rowid-get key t done t' r e =
      deleted key t done t' (delete_rowid-Deletion h to_text to_upper key t done t' e)
        ((reached-IsNumberedTable t r).distinct)

  -- In a reached table an update that returns found no row and changed nothing, or it has put a row, which
  -- it returns, where the old row was or where no row was; the old row is gone then, and every other rowid
  -- has the row that it had.
  pub update-get :
      (key : ℤ) (values : RowValues R) (t : Table R X) (out : Option (Row R)) (t' : Table R X)
      → IsReached t
      → update h to_text to_upper key values t ≡ ok (out, t')
      → ((get key t ≡ none) × (out ≡ none) × (t' ≡ t))
        ⊎ ((row : Row R) × (out ≡ some row)
            × (has_row key t ≡ true)
            × (get row.rowid t' ≡ some row)
            × (eqb_ℤ row.rowid key ≡ false → (get row.rowid t ≡ none) × (get key t' ≡ none))
            × ((k : ℤ) → eqb_ℤ key k ≡ false → eqb_ℤ row.rowid k ≡ false → get k t' ≡ get k t))
  update-get key values t out t' r e =
      elim (update-IsOutcome h to_text to_upper key values t out t' e) [
        | missed gone nothing_out same ↦ inl (gone, nothing_out, same)
        | updated row found there u ↦
            let (here, moved, others) =
              replaced_lem key t row t' u ((reached-IsNumberedTable t r).distinct) in
            inr (row, found, there, here, moved, others)
      ]

  -- In a reached table allocation gives a rowid above all that are there,
  -- so a free one, or, only with AUTOINCREMENT and the next rowid above 2^63 - 1, throws that the
  -- database is full.
  pub allocate_rowid_answers :
      (t : Table R X)
      → IsReached t
      → ((id : ℤ) × (m : Maximum) × (allocate_rowid t ≡ ok (id, m))
          × (get id t ≡ none)
          × ((k : ℤ) (row : Row R) → get k t ≡ some row → is_at_least k id ≡ false))
        ⊎ ((is_autoincrement t.columns ≡ true)
            × (is_above t.next_rowid max_signed ≡ true)
            × (allocate_rowid t ≡ err full))
  allocate_rowid_answers t r = elim (allocate_rowid_cases t (reached-IsNumberedTable t r)) [
    | allocated id m e above b ↦ inl (id, m, e, next-IsFree id t.rows above, above)
    | exhausted auto over e ↦ inr (auto, over, e)
  ]
