-- ===== src/Storage/Table/Numbering.antt =====
-- storage/table.ts: storing a row and taking one out keep the rowids in order.
use mathlib.Core.Path.{subst}
use sqlite_mem.Prelude.{
  ◌≡◌, ap, sym, ◌∙◌, Bool-cases, Option-cases, some, if◌then◌else◌, ◌⊎◌, inl, inr,
}
use sqlite_mem.Prelude.Int.{ℤ, eqb_ℤ}
use sqlite_mem.Storage.Table.{
  Row, Rows, Maximum, unknown, nothing, maximum, row_at, set_row, delete_row,
}
use sqlite_mem.Storage.Table.Rowids.{
  is_above, is_at_least, increment_rowid, advanced_maximum, maximum_without,
}
use sqlite_mem.Storage.Table.RowidOrder.{
  is_above_not_both, is_above_irrefl, is_at_least-increment_rowid, not_above,
}
use sqlite_mem.Storage.Table.RowMaps.{
  eqb_ℤ→eq, some-injective, some_not_none, row_at-set_row, row_at-set_row_other,
}
use sqlite_mem.Storage.Table.Invariant.{
  IsDistinct, IsBound, IsNext, IsNumbered, set_row-IsDistinct, delete_row-IsDistinct, kept_row,
}

abbrev pub stored_next : ℤ → ℤ → ℤ
stored_next k next = if is_at_least k next then increment_rowid k else next

module _ {R : Type 0} where
  -- A row that is there after a row was stored is that row or was there.
  pub set_row_cases :
      (i k : ℤ) (row r : Row R) (rows : Rows R)
      → row_at i (set_row k row rows) ≡ some r
      → ((i ≡ k) × (r ≡ row)) ⊎ (row_at i rows ≡ some r)
  set_row_cases i k row r rows e = elim (Bool-cases (eqb_ℤ k i)) [
    | inl f ↦
        let same = sym (eqb_ℤ→eq k i f) in
        let found = subst (λ x. row_at x (set_row k row rows) ≡ some r) same e in
        inl (same, some-injective r row (sym found ∙ row_at-set_row k row rows))
    | inr f ↦ inr (sym (row_at-set_row_other i k row rows f) ∙ e)
  ]

  stored-IsBound :
      (row : Row R) (rows : Rows R) (m : Maximum)
      → IsBound m rows
      → IsBound (advanced_maximum row.rowid m) (set_row row.rowid row rows)
  stored-IsBound row rows unknown b = tt
  stored-IsBound row rows nothing b = λ i r e. elim (set_row_cases i row.rowid row r rows e) [
    | inl (same, s) ↦ rw same (is_above_irrefl row.rowid)
    | inr f ↦ absurd (some_not_none r (sym f ∙ b i))
  ]
  stored-IsBound row rows (maximum m) b = elim (Bool-cases (is_above row.rowid m)) [
    | inl above ↦ λ i r e. elim (set_row_cases i row.rowid row r rows e) [
      | inl (same, s) ↦ rw (above, same) (is_above_irrefl row.rowid)
      | inr f ↦ rw above (is_above_not_both i m row.rowid (b i r f) above)
    ]
    | inr above ↦ λ i r e. elim (set_row_cases i row.rowid row r rows e) [
      | inl (same, s) ↦ rw (above, same) above
      | inr f ↦ rw above (b i r f)
    ]
  ]

  stored-IsNext :
      (row : Row R) (rows : Rows R) (next : ℤ)
      → IsNext next rows
      → IsNext (stored_next row.rowid next) (set_row row.rowid row rows)
  stored-IsNext row rows next b = λ i r e. elim (Bool-cases (is_at_least row.rowid next)) [
    | inl above ↦ elim (set_row_cases i row.rowid row r rows e) [
      | inl (same, s) ↦
          rw (above, same)
            (is_at_least-increment_rowid row.rowid row.rowid (is_above_irrefl row.rowid))
      | inr f ↦
          rw above
            (is_at_least-increment_rowid i row.rowid (not_above i next row.rowid (b i r f) above))
    ]
    | inr above ↦ elim (set_row_cases i row.rowid row r rows e) [
      | inl (same, s) ↦ rw (above, same) above
      | inr f ↦ rw above (b i r f)
    ]
  ]

  pub store-IsNumbered :
      (row : Row R) (rows : Rows R) (m : Maximum) (next : ℤ)
      → IsNumbered rows m next
      → IsNumbered
          (set_row row.rowid row rows)
          (advanced_maximum row.rowid m)
          (stored_next row.rowid next)
  store-IsNumbered row rows m next n = record {
    distinct = set_row-IsDistinct row.rowid row rows n.distinct;
    own = λ i r e. elim (set_row_cases i row.rowid row r rows e) [
      | inl (same, s) ↦ ap (λ x. x.rowid) s ∙ sym same
      | inr f ↦ n.own i r f
    ];
    bound = stored-IsBound row rows m n.bound;
    below = stored-IsNext row rows next n.below;
  }

  without-IsBound :
      (k : ℤ) (rows : Rows R) (m : Maximum)
      → IsDistinct rows
      → IsBound m rows
      → IsBound (maximum_without k m) (delete_row k rows)
  without-IsBound k rows unknown d b = tt
  without-IsBound k rows nothing d b = λ i. elim (Option-cases (row_at i (delete_row k rows))) [
    | inl gone ↦ gone
    | inr (r, e) ↦ absurd (some_not_none r (sym (kept_row i k r rows d e) ∙ b i))
  ]
  without-IsBound k rows (maximum m) d b = elim (Bool-cases (eqb_ℤ k m)) [
    | inl same ↦ rw same tt
    | inr other ↦ rw other (λ i r e. b i r (kept_row i k r rows d e))
  ]

  pub without-IsNumbered :
      (k : ℤ) (rows : Rows R) (m : Maximum) (next : ℤ)
      → IsNumbered rows m next
      → IsNumbered (delete_row k rows) (maximum_without k m) next
  without-IsNumbered k rows m next n = record {
    distinct = delete_row-IsDistinct k rows n.distinct;
    own = λ i r e. n.own i r (kept_row i k r rows n.distinct e);
    bound = without-IsBound k rows m n.distinct n.bound;
    below = λ i r e. n.below i r (kept_row i k r rows n.distinct e);
  }

  replaced-IsBound :
      (row old : Row R) (rows : Rows R) (m : Maximum)
      → row_at row.rowid rows ≡ some old
      → IsBound m rows
      → IsBound m (set_row row.rowid row rows)
  replaced-IsBound row old rows unknown there b = tt
  replaced-IsBound row old rows nothing there b =
      absurd (some_not_none old (sym there ∙ b row.rowid))
  replaced-IsBound row old rows (maximum m) there b = λ i r e.
      elim (set_row_cases i row.rowid row r rows e) [
        | inl (same, s) ↦ rw same (b row.rowid old there)
        | inr f ↦ b i r f
      ]

  -- A row in place of one with its rowid.
  pub replace-IsNumbered :
      (row old : Row R) (rows : Rows R) (m : Maximum) (next : ℤ)
      → row_at row.rowid rows ≡ some old
      → IsNumbered rows m next
      → IsNumbered (set_row row.rowid row rows) m next
  replace-IsNumbered row old rows m next there n = record {
    distinct = set_row-IsDistinct row.rowid row rows n.distinct;
    own = λ i r e. elim (set_row_cases i row.rowid row r rows e) [
      | inl (same, s) ↦ ap (λ x. x.rowid) s ∙ sym same
      | inr f ↦ n.own i r f
    ];
    bound = replaced-IsBound row old rows m there n.bound;
    below = λ i r e. elim (set_row_cases i row.rowid row r rows e) [
      | inl (same, s) ↦ rw same (n.below row.rowid old there)
      | inr f ↦ n.below i r f
    ];
  }
