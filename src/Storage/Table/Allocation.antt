-- ===== src/Storage/Table/Allocation.antt =====
-- storage/table.ts: what `allocateRowid` gives is no rowid of the table.
use mathlib.Core.Path.{subst}
use sqlite_mem.Prelude.{
  ◌≡◌, refl, sym, ◌∙◌, Bool, true, false, Bool-cases, Option-cases, none, some, [], ◌∷◌,
  if◌then◌else◌, ◌⊎◌, inl, inr,
}
use sqlite_mem.Prelude.Int.{ℤ, eqb_ℤ}
use sqlite_mem.Errors.{ok, err}
use sqlite_mem.Storage.Table.{Row, Rows, Maximum, unknown, nothing, maximum, Table, row_at}
use sqlite_mem.Storage.Table.Rowids.{
  is_above, largest, settled_maximum, current_maximum, next_of, max_signed, full, free_rowid,
  is_autoincrement, allocate_rowid,
}
use sqlite_mem.Storage.Table.RowidOrder.{
  is_above_irrefl, above_first, is_above_chain, is_at_least-increment_rowid, below_irrefl,
}
use sqlite_mem.Storage.Table.RowMaps.{eqb_ℤ→eq, some_not_none, true_not_false}
use sqlite_mem.Storage.Table.Invariant.{IsBound, IsNext, IsNumberedTable}

pub if_false : {A : Type 0} {b : Bool} (x y : A) → b ≡ false → (if b then x else y) ≡ y
if_false x y e = rw e refl

pub if_true : {A : Type 0} {b : Bool} (x y : A) → b ≡ true → (if b then x else y) ≡ x
if_true x y e = rw e refl

module _ {R : Type 0} where
  -- The search for the largest goes on to one that no rowid, and no start, is above.
  abbrev IsReached : ℤ → Rows R → Type 0
  IsReached m rows =
      (top : ℤ) × (largest (maximum m) rows ≡ maximum top)
      × (is_above m top ≡ false)
      × IsBound (maximum top) rows

  cons-IsBound :
      (j top : ℤ) (old : Row R) (rows : Rows R)
      → is_above j top ≡ false
      → IsBound (maximum top) rows
      → IsBound (maximum top) ((j, old) ∷ rows)
  unfolding row_at
  cons-IsBound j top old rows a b = λ k row e. elim (Bool-cases (eqb_ℤ j k)) [
    | inl here ↦ subst (λ x. is_above x top ≡ false) (eqb_ℤ→eq j k here) a
    | inr there ↦ b k row (sym (if_false (some old) (row_at k rows) there) ∙ e)
  ]

  largest_reached : (m : ℤ) (rows : Rows R) → IsReached m rows
  unfolding largest row_at
  largest_reached m [] = (m, refl, is_above_irrefl m, λ k row e. absurd (some_not_none row (sym e)))
  largest_reached m ((j, old) ∷ rows) = elim (Bool-cases (is_above j m)) [
    | inl above ↦
        let (top, e, start, b) = largest_reached j rows in
        (top, rw above e, above_first j m top above start, cons-IsBound j top old rows start b)
    | inr above ↦
        let (top, e, start, b) = largest_reached m rows in
        (top, rw above e, start, cons-IsBound j top old rows (is_above_chain j m top above start) b)
  ]

  largest_known :
      (rows : Rows R)
      → ((largest nothing rows ≡ nothing) × IsBound nothing rows)
        ⊎ ((top : ℤ) × (largest nothing rows ≡ maximum top) × IsBound (maximum top) rows)
  unfolding largest row_at
  largest_known [] = inl (refl, λ k. refl)
  largest_known ((j, old) ∷ rows) =
      let (top, e, start, b) = largest_reached j rows in
      inr (top, e, cons-IsBound j top old rows start b)

  -- A maximum, and a rowid after it that is above all.
  abbrev IsReady : Maximum → Rows R → Type 0
  IsReady m rows = IsBound m rows × IsNext (next_of m) rows

  next-IsReady : (m : ℤ) (rows : Rows R) → IsBound (maximum m) rows → IsReady (maximum m) rows
  next-IsReady m rows b = (b, λ k row e. is_at_least-increment_rowid k m (b k row e))

  largest-IsReady : (rows : Rows R) → IsReady (largest nothing rows) rows
  largest-IsReady rows = elim (largest_known rows) [
    | inl (e, b) ↦ rw e (b, λ k row f. absurd (some_not_none row (sym f ∙ b k)))
    | inr (top, e, b) ↦ rw e (next-IsReady top rows b)
  ]

  settled_maximum-IsReady :
      (m : Maximum) (rows : Rows R) → IsBound m rows → IsReady (settled_maximum m rows) rows
  unfolding settled_maximum
  settled_maximum-IsReady unknown rows b = largest-IsReady rows
  settled_maximum-IsReady nothing rows b = largest-IsReady rows
  settled_maximum-IsReady (maximum m) rows b = next-IsReady m rows b

  -- No row stands at the next rowid.
  pub next-IsFree : (next : ℤ) (rows : Rows R) → IsNext next rows → row_at next rows ≡ none
  next-IsFree next rows b = elim (Option-cases (row_at next rows)) [
    | inl free ↦ free
    | inr (r, e) ↦ absurd (true_not_false (sym (below_irrefl next) ∙ b next r e))
  ]

module _ {R X : Type 0} where
  -- What allocation does: a rowid above all and a maximum, or, with AUTOINCREMENT, an error at the end.
  pub data IsAllocated (t : Table R X) : Type 0 where
    allocated :
        (id : ℤ) (m : Maximum)
        → allocate_rowid t ≡ ok (id, m)
        → IsNext id t.rows
        → IsBound m t.rows
        → IsAllocated t
    exhausted :
        is_autoincrement t.columns ≡ true
        → is_above t.next_rowid max_signed ≡ true
        → allocate_rowid t ≡ err full
        → IsAllocated t

  pub allocate_rowid_cases : (t : Table R X) → IsNumberedTable t → IsAllocated t
  unfolding allocate_rowid free_rowid
  allocate_rowid_cases t n =
      let ready = settled_maximum-IsReady t.maximum_rowid t.rows n.bound in
      let free = next-IsFree t.next_rowid t.rows n.below in
      elim (Bool-cases (is_autoincrement t.columns)) [
        | inl auto ↦ elim (Bool-cases (is_above t.next_rowid max_signed)) [
          | inl above ↦ exhausted auto above (rw (auto, free, above) refl)
          | inr under ↦
              allocated t.next_rowid t.maximum_rowid (rw (auto, free, under) refl) n.below n.bound
        ]
        | inr plain ↦
            allocated (next_of (current_maximum t)) (current_maximum t) (rw plain refl) ready.1
              ready.0
      ]
