-- ===== src/Storage/Table/Invariant.antt =====
-- storage/table.ts: what holds of the rows of a table and of what it keeps about their rowids.
use mathlib.Core.Path.{subst}
use sqlite_mem.Prelude.{
  arith, ◌≡◌, refl, sym, false, Bool-cases, none, some, [], ◌∷◌, inl, inr, ◌∙◌,
}
use sqlite_mem.Prelude.Int.{ℤ, eqb_ℤ}
use sqlite_mem.Storage.Table.{
  Row, Rows, Maximum, unknown, nothing, maximum, Table, row_at, set_row, delete_row,
}
use sqlite_mem.Storage.Table.Rowids.{is_above, is_at_least}
use sqlite_mem.Storage.Table.RowMaps.{
  eqb_ℤ→eq, eqb_ℤ_sym, some_not_none, row_at-set_row_other, row_at-delete_row_other,
}

-- No two entries have one rowid.
unfoldable pub IsDistinct : {R : Type 0} → Rows R → Type 0
unfolding row_at
IsDistinct [] = Unit
IsDistinct ((k, row) ∷ rows) = (row_at k rows ≡ none) × IsDistinct rows

-- A row stands at its own rowid.
abbrev pub HasOwnRowids : {R : Type 0} → Rows R → Type 0
HasOwnRowids {R} rows = (k : ℤ) (row : Row R) → row_at k rows ≡ some row → row.rowid ≡ k

-- The cached maximum is not below any rowid.
abbrev pub IsBound : {R : Type 0} → Maximum → Rows R → Type 0
IsBound unknown rows = Unit
IsBound {R} nothing rows = (k : ℤ) → row_at k rows ≡ none
IsBound {R} (maximum m) rows =
    (k : ℤ) (row : Row R) → row_at k rows ≡ some row → is_above k m ≡ false

-- Each rowid is below the next.
abbrev pub IsNext : {R : Type 0} → ℤ → Rows R → Type 0
IsNext {R} next rows = (k : ℤ) (row : Row R) → row_at k rows ≡ some row → is_at_least k next ≡ false

pub record IsNumbered {R : Type 0} (rows : Rows R) (m : Maximum) (next : ℤ) : Type 0 where
  pub distinct : IsDistinct rows
  pub own : HasOwnRowids rows
  pub bound : IsBound m rows
  pub below : IsNext next rows

abbrev pub IsNumberedTable : {R X : Type 0} → Table R X → Type 0
IsNumberedTable t = IsNumbered t.rows t.maximum_rowid t.next_rowid

module _ {R : Type 0} where
  pub set_row-IsDistinct :
      (k : ℤ) (row : Row R) (rows : Rows R) → IsDistinct rows → IsDistinct (set_row k row rows)
  unfolding IsDistinct set_row row_at
  set_row-IsDistinct k row [] d = (refl, tt)
  set_row-IsDistinct k row ((j, old) ∷ rows) d = elim (Bool-cases (eqb_ℤ j k)) [
    | inl e ↦ rw e (d.0, d.1)
    | inr e ↦ rw e (
      row_at-set_row_other j k row rows (eqb_ℤ_sym j k e) ∙ d.0,
      set_row-IsDistinct k row rows d.1,
    )
  ]

  pub delete_row-IsDistinct :
      (k : ℤ) (rows : Rows R) → IsDistinct rows → IsDistinct (delete_row k rows)
  unfolding IsDistinct delete_row row_at
  delete_row-IsDistinct k [] d = d
  delete_row-IsDistinct k ((j, old) ∷ rows) d = elim (Bool-cases (eqb_ℤ j k)) [
    | inl e ↦ rw e d.1
    | inr e ↦
        rw e (
          row_at-delete_row_other j k rows (eqb_ℤ_sym j k e) ∙ d.0,
          delete_row-IsDistinct k rows d.1,
        )
  ]

  pub row_at-delete_row :
      (k : ℤ) (rows : Rows R) → IsDistinct rows → row_at k (delete_row k rows) ≡ none
  unfolding IsDistinct row_at delete_row
  row_at-delete_row k [] d = refl
  row_at-delete_row k ((j, old) ∷ rows) d =
      ground (arith, row_at-delete_row k rows (d.1), eqb_ℤ→eq j k, d.0)

  pub kept_row :
      (i k : ℤ) (row : Row R) (rows : Rows R)
      → IsDistinct rows
      → row_at i (delete_row k rows) ≡ some row
      → row_at i rows ≡ some row
  kept_row i k row rows d e = elim (Bool-cases (eqb_ℤ k i)) [
    | inl f ↦ absurd (
        some_not_none row (
          sym e
          ∙ subst (λ x. row_at x (delete_row k rows) ≡ none) (eqb_ℤ→eq k i f)
              (row_at-delete_row k rows d)))
    | inr f ↦ sym (row_at-delete_row_other i k rows f) ∙ e
  ]
