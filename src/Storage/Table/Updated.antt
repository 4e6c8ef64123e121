-- ===== src/Storage/Table/Updated.antt =====
-- storage/table.ts: what update does to the rows.
use mathlib.Core.Path.{subst}
use sqlite_mem.Prelude.{
  ◌≡◌, refl, ap, sym, ◌∙◌, Text, text_eq, Bool, Bool-cases, true, false, not, ◌&&◌, Option, none,
  some, List, if◌then◌else◌, ◌⊎◌, inl, inr,
}
use sqlite_mem.Prelude.Int.{ℤ, eqb_ℤ, eqb_ℤ_refl}
use sqlite_mem.Errors.{ok, ◌>>=◌, bind_ok, returned, guard_ok, ok-injective}
use sqlite_mem.Storage.Cow.Maps.{set, delete}
use sqlite_mem.Types.Value.{SqlValue}
use sqlite_mem.Types.Conversion.{Numbers}
use sqlite_mem.Storage.Table.{Row, Table, row_at, set_row, delete_row, get, has_row, is_some}
use sqlite_mem.Storage.Table.Columns.{RowValues, integer_primary_key_alias}
use sqlite_mem.Storage.Table.Validation.{validate}
use sqlite_mem.Storage.Table.ClusterKeys.{make_cluster_key}
use sqlite_mem.Storage.Table.Storing.{
  assert_mutable, taken_by_other, reindex_equality, store_row, set_alias, target_rowid, move_row,
}
use sqlite_mem.Storage.Table.Editing.{
  update, update_heap, update_clustered, updated_values, update_found,
}
use sqlite_mem.Storage.Table.Invariant.{IsNumberedTable}
use sqlite_mem.Storage.Table.Numbering.{store-IsNumbered, replace-IsNumbered, without-IsNumbered}
use sqlite_mem.Storage.Table.Allocation.{if_false, if_true}
use sqlite_mem.Storage.Table.RowMaps.{is_some-none}
use sqlite_mem.Storage.Table.Inserted.{throws}
use sqlite_mem.Storage.Table.Changes.{SameRows, same-IsNumberedTable, reindex_equality-SameRows}

-- A row was updated: it was stored in the rows, without the old row if that stood elsewhere.
pub record IsUpdated {R X : Type 0} (key : ℤ) (t : Table R X) (row : Row R) (t' : Table R X)
    : Type 0 where
  pub rows :
      t'.rows
      ≡ set_row row.rowid row (if eqb_ℤ row.rowid key then t.rows else delete_row key t.rows)
  pub free : (eqb_ℤ row.rowid key ≡ true) ⊎ (get row.rowid t ≡ none)
  pub numbered : IsNumberedTable t → IsNumberedTable t'

-- An update finds no row, and changes nothing, or updates one.
pub data IsOutcome {R X : Type 0} (key : ℤ) (t : Table R X) (out : Option (Row R)) (t' : Table R X)
    : Type 0 where
  missed : get key t ≡ none → out ≡ none → t' ≡ t → IsOutcome key t out t'
  updated :
      (row : Row R)
      → out ≡ some row
      → has_row key t ≡ true
      → IsUpdated key t row t'
      → IsOutcome key t out t'

free_target :
    {R : Type 0} (b : Bool) (o : Option (Row R))
    → (not b && is_some o) ≡ false
    → (b ≡ true) ⊎ (o ≡ none)
free_target true o e = inl refl
free_target false o e = inr (is_some-none o e)

module _ {R X : Type 0} where
  chosen_rows :
      (b : Bool) (t u : Table R X) → (if b then t else u).rows ≡ (if b then t.rows else u.rows)
  chosen_rows true t u = refl
  chosen_rows false t u = refl

  chosen-IsNumbered :
      (b : Bool) (t u : Table R X)
      → IsNumberedTable t
      → IsNumberedTable u
      → IsNumberedTable (if b then t else u)
  chosen-IsNumbered true t u n m = n
  chosen-IsNumbered false t u n m = m

module _ {R X : Type 0} (h : Numbers R) (to_text : R → Text) (to_upper : Text → Text) where
  -- What holds after the hashes were changed holds at the end of an update.
  reindexed :
      (P : Row R → Table R X → Type 0) (existing candidate : Row R) (base : Table R X) (row : Row R)
      (t' : Table R X)
      → ((s : Table R X) → SameRows base s → P candidate s)
      → ◌>>=◌ {R = Row R × Table R X}
          (reindex_equality to_text to_upper existing candidate base)
          (λ s. ok (candidate, s))
        ≡ ok (row, t')
      → P row t'
  reindexed P existing candidate base row t' step e =
      elim (bind_ok (reindex_equality to_text to_upper existing candidate base) _ (row, t') e) [
        | returned s done f ↦
            subst (λ q. P q.0 q.1) (ok-injective (candidate, s) (row, t') f)
              (step s (reindex_equality-SameRows to_text to_upper existing candidate base s done))
      ]

  update_heap-IsUpdated :
      (key : ℤ) (existing : Row R) (values : List (SqlValue R)) (t : Table R X) (row : Row R)
      (t' : Table R X)
      → update_heap h to_text to_upper key existing values t ≡ ok (row, t')
      → IsUpdated key t row t'
  unfolding update_heap
  update_heap-IsUpdated key existing values t row t' e =
      let alias = integer_primary_key_alias to_upper t in
      elim (bind_ok (target_rowid alias key values t.columns) _ (row, t') e) [
        | returned target chosen e1 ↦
            let (free, e2) =
              guard_ok (not (eqb_ℤ target key) && has_row target t) _ _ (row, t') e1 in
            elim (bind_ok (set_alias alias target values t.columns) _ (row, t') e2) [
              | returned stored aliased e3 ↦
                  elim (bind_ok (validate h to_upper stored (some key) t) _ (row, t') e3) [
                    | returned u valid e4 ↦
                        let candidate : Row R = record { rowid = target; values = stored } in
                        let moved = move_row key t in
                        let start = if eqb_ℤ target key then t else moved in
                        reindexed (IsUpdated key t) existing candidate (store_row candidate start)
                          row t'
                          (λ s same. record {
                            rows =
                                same.rows
                                ∙ ap (set_row target candidate)
                                    (chosen_rows (eqb_ℤ target key) t moved);
                            free = free_target (eqb_ℤ target key) (get target t) free;
                            numbered = λ n.
                                same-IsNumberedTable (store_row candidate start) s same (
                                  store-IsNumbered candidate start.rows start.maximum_rowid
                                    start.next_rowid
                                    (chosen-IsNumbered (eqb_ℤ target key) t moved n (
                                      without-IsNumbered key t.rows t.maximum_rowid t.next_rowid
                                        n)));
                          })
                          e4
                  ]
            ]
      ]

  update_clustered-IsUpdated :
      (key : ℤ) (existing : Row R) (values : List (SqlValue R)) (t : Table R X) (row : Row R)
      (t' : Table R X)
      → (out : Row R) × (row_at key t.rows ≡ some out)
      → update_clustered h to_text to_upper key existing values t ≡ ok (row, t')
      → IsUpdated key t row t'
  unfolding update_clustered
  update_clustered-IsUpdated key existing values t row t' there e =
      elim (bind_ok (make_cluster_key h to_upper existing.values t) _ (row, t') e) [
        | returned old made e1 ↦
            elim (bind_ok (make_cluster_key h to_upper values t) _ (row, t') e1) [
              | returned new made' e2 ↦
                  elim (Bool-cases (taken_by_other old new t.clustered_rows)) [
                    | inl taken ↦
                        absurd
                          (throws h to_text to_upper t (row, t') (sym (if_true _ _ taken) ∙ e2))
                    | inr free ↦
                        elim (bind_ok (validate h to_upper values (some key) t) _ (row, t')
                          (sym (if_false _ _ free) ∙ e2)) [
                            | returned u valid e3 ↦
                                let candidate : Row R = record { rowid = key; values = values } in
                                let base : Table R X = record t {
                                  rows = set_row key candidate t.rows;
                                  clustered_rows = set new candidate (
                                      if text_eq new old
                                      then t.clustered_rows
                                      else delete old t.clustered_rows);
                                } in
                                reindexed (IsUpdated key t) existing candidate base row t'
                                  (λ s same. record {
                                    rows = same.rows ∙ rw (eqb_ℤ_refl key) refl;
                                    free = inl (eqb_ℤ_refl key);
                                    numbered = λ n. same-IsNumberedTable base s same (
                                        replace-IsNumbered candidate there.0 t.rows t.maximum_rowid
                                          t.next_rowid there.1 n);
                                  })
                                  e3
                          ]
                  ]
            ]
      ]

  update_found-IsOutcome :
      (key : ℤ) (updates : RowValues R) (found : Option (Row R)) (t : Table R X)
      (out : Option (Row R)) (t' : Table R X)
      → row_at key t.rows ≡ found
      → update_found h to_text to_upper key updates found t ≡ ok (out, t')
      → IsOutcome key t out t'
  unfolding update_found
  update_found-IsOutcome key updates none t out t' there e =
      let p = sym (ok-injective (none, t) (out, t') e) in
      missed there (ap (λ q. q.0) p) (ap (λ q. q.1) p)
  update_found-IsOutcome key updates (some existing) t out t' there e =
      elim (bind_ok (updated_values h to_text to_upper t.columns updates existing.values) _
        (out, t') e) [
          | returned values computed e1 ↦
              let chosen =
                if t.without_rowid
                then update_clustered h to_text to_upper key existing values t
                else update_heap h to_text to_upper key existing values t in
              elim (bind_ok chosen _ (out, t') e1) [
                | returned (row, s) done e2 ↦
                    subst (λ q. IsOutcome key t q.0 q.1) (ok-injective (some row, s) (out, t') e2)
                      (updated row refl (ap is_some there) (elim (Bool-cases t.without_rowid) [
                        | inl clustered ↦
                            update_clustered-IsUpdated key existing values t row s (existing, there)
                              (sym (if_true _ _ clustered) ∙ done)
                        | inr heap ↦
                            update_heap-IsUpdated key existing values t row s
                              (sym (if_false _ _ heap) ∙ done)
                      ]))
              ]
        ]

  pub update-IsOutcome :
      (key : ℤ) (updates : RowValues R) (t : Table R X) (out : Option (Row R)) (t' : Table R X)
      → update h to_text to_upper key updates t ≡ ok (out, t')
      → IsOutcome key t out t'
  unfolding update
  update-IsOutcome key updates t out t' e = elim (bind_ok (assert_mutable t) _ (out, t') e) [
    | returned u writable f ↦ update_found-IsOutcome key updates (row_at key t.rows) t out t' refl f
  ]
