-- ===== src/Storage/Table/Inserted.antt =====
-- storage/table.ts: what insertion does to the rows.
use mathlib.Core.Path.{subst}
use sqlite_mem.Prelude.{
  ◌≡◌, refl, ap, sym, ◌∙◌, Text, Bool, Bool-cases, Option, none, some, List, inl, inr,
}
use sqlite_mem.Prelude.Int.{ℤ}
use sqlite_mem.Errors.{ok, err, ◌>>=◌, bind_ok, returned, guard_ok, ok-injective, err-not_ok}
use sqlite_mem.Storage.Cow.Maps.{Map, lookup, set}
use sqlite_mem.Types.Value.{SqlValue, is_null}
use sqlite_mem.Types.Conversion.{Numbers}
use sqlite_mem.Storage.Table.{Row, Maximum, Table, get, has_row, is_some}
use sqlite_mem.Storage.Table.Rowids.{allocate_rowid, as_rowid}
use sqlite_mem.Storage.Table.Invariant.{IsBound, IsNumbered, IsNumberedTable}
use sqlite_mem.Storage.Table.Columns.{RowValues, integer_primary_key_alias, cells_from_input}
use sqlite_mem.Storage.Table.Allocation.{
  allocated, exhausted, allocate_rowid_cases, next-IsFree, if_false, if_true,
}
use sqlite_mem.Storage.Table.Validation.{primary_key_conflict, names_of}
use sqlite_mem.Storage.Table.ClusterKeys.{primary_key_columns, make_cluster_key}
use sqlite_mem.Storage.Table.Storing.{
  assert_mutable, add_row, commit_row, store_row, choose_rowid, alias_value, alias_name, set_alias,
}
use sqlite_mem.Storage.Table.Editing.{insert, insert_heap, insert_clustered, validate_unless}
use sqlite_mem.Storage.Table.RowMaps.{is_some-none}
use sqlite_mem.Storage.Table.Changes.{IsStored, stored-chain, commit_row-SameRows}

module _ {R X : Type 0} where
  rebound :
      (t : Table R X) (m : Maximum)
      → IsNumberedTable t
      → IsBound m t.rows
      → IsNumbered t.rows m t.next_rowid
  rebound t m n b = record { distinct = n.distinct; own = n.own; bound = b; below = n.below }

  -- What allocation and the choice of a rowid leave of the maximum is one.
  pub allocate_rowid-IsNumbered :
      (t : Table R X) (id : ℤ) (m : Maximum)
      → allocate_rowid t ≡ ok (id, m)
      → IsNumberedTable t
      → IsNumbered t.rows m t.next_rowid
  allocate_rowid-IsNumbered t id m e n = elim (allocate_rowid_cases t n) [
    | allocated found top f free b ↦
        subst (λ x. IsNumbered t.rows x t.next_rowid)
          (ap (λ p. p.1) (ok-injective (found, top) (id, m) (sym f ∙ e))) (rebound t top n b)
    | exhausted auto above f ↦ absurd (err-not_ok (sym f ∙ e))
  ]

  allocate_rowid-IsFree :
      (t : Table R X) (id : ℤ) (m : Maximum)
      → allocate_rowid t ≡ ok (id, m)
      → IsNumberedTable t
      → get id t ≡ none
  allocate_rowid-IsFree t id m e n = elim (allocate_rowid_cases t n) [
    | allocated found top f above b ↦
        subst (λ x. get x t ≡ none) (ap (λ p. p.0) (ok-injective (found, top) (id, m) (sym f ∙ e)))
          (next-IsFree found t.rows above)
    | exhausted auto above f ↦ absurd (err-not_ok (sym f ∙ e))
  ]

  choose_rowid-IsNumbered :
      (supplied : Option ℤ) (value : SqlValue R) (name : Text) (t : Table R X) (id : ℤ)
      (m : Maximum)
      → choose_rowid supplied value name t ≡ ok (id, m)
      → IsNumberedTable t
      → IsNumbered t.rows m t.next_rowid
  unfolding choose_rowid
  choose_rowid-IsNumbered (some rowid) value name t id m e n =
      subst (λ x. IsNumbered t.rows x t.next_rowid)
        (ap (λ p. p.1) (ok-injective (rowid, t.maximum_rowid) (id, m) e)) n
  choose_rowid-IsNumbered none value name t id m e n = elim (Bool-cases (is_null value)) [
    | inl empty ↦ allocate_rowid-IsNumbered t id m (sym (if_true _ _ empty) ∙ e) n
    | inr given ↦ elim (bind_ok (as_rowid value name) _ (id, m) (sym (if_false _ _ given) ∙ e)) [
      | returned rowid chosen f ↦
          subst (λ x. IsNumbered t.rows x t.next_rowid)
            (ap (λ p. p.1) (ok-injective (rowid, t.maximum_rowid) (id, m) f)) n
    ]
  ]

-- A row was inserted at a rowid that was free; `found` is the maximum that allocation had left.
pub record IsInserted {R X : Type 0} (t : Table R X) (id : ℤ) (t' : Table R X) : Type 0 where
  pub row : Row R
  pub found : Maximum
  pub own : row.rowid ≡ id
  pub free : get id t ≡ none
  pub numbered : IsNumberedTable t → IsNumbered t.rows found t.next_rowid
  pub stored : IsStored row found t t'

module _ {R X : Type 0} (h : Numbers R) (to_text : R → Text) (to_upper : Text → Text) where
  -- The end of each insertion.
  add_row-IsInserted :
      (id : ℤ) (values : List (SqlValue R)) (found : Maximum) (clustered : Map (Row R))
      (t t' : Table R X) (out : ℤ)
      → get id t ≡ none
      → (IsNumberedTable t → IsNumbered t.rows found t.next_rowid)
      → add_row to_text to_upper
          (record { rowid = id; values = values })
          (record t { maximum_rowid = found; clustered_rows = clustered })
        ≡ ok (out, t')
      → IsInserted t out t'
  unfolding add_row
  add_row-IsInserted id values found clustered t t' out free n e =
      let row : Row R = record { rowid = id; values = values } in
      let base : Table R X = record t { maximum_rowid = found; clustered_rows = clustered } in
      elim (bind_ok (commit_row to_text to_upper row (store_row row base)) _ (out, t') e) [
        | returned s committed f ↦
            subst (λ q. IsInserted t q.0 q.1) (ok-injective (id, s) (out, t') f)
              (record {
                row = row;
                found = found;
                own = refl;
                free = free;
                numbered = n;
                stored =
                    stored-chain {t = t} {s = store_row row base}
                      (record { rows = refl; maximum_rowid = refl; next_rowid = refl })
                      (commit_row-SameRows to_text to_upper row (store_row row base) s committed);
              })
      ]

  insert_heap-IsInserted :
      (supplied : Option ℤ) (values : List (SqlValue R)) (skip : Bool) (t t' : Table R X) (id : ℤ)
      → insert_heap h to_text to_upper supplied values skip t ≡ ok (id, t')
      → IsInserted t id t'
  unfolding insert_heap
  insert_heap-IsInserted supplied values skip t t' id e =
      let alias = integer_primary_key_alias to_upper t in
      let value = alias_value alias values t.columns in
      elim (bind_ok (choose_rowid supplied value (alias_name alias) t) _ (id, t') e) [
        | returned (rowid, found) choice e1 ↦
            let (free, e2) = guard_ok (has_row rowid t) _ _ (id, t') e1 in
            elim (bind_ok (set_alias alias rowid values t.columns) _ (id, t') e2) [
              | returned stored aliased e3 ↦
                  elim (bind_ok (validate_unless h to_text to_upper skip stored t) _ (id, t') e3) [
                    | returned u valid e4 ↦
                        add_row-IsInserted rowid stored found t.clustered_rows t t' id
                          (is_some-none (get rowid t) free)
                          (choose_rowid-IsNumbered supplied value (alias_name alias) t rowid found
                            choice)
                          e4
                  ]
            ]
      ]

  -- The conflict of two primary keys, which throws.
  pub throws :
      {A : Type 0} (t : Table R X) (out : A)
      → ¬ (
          (primary_key_columns t.columns t.constraints >>= λ keys.
          err (primary_key_conflict t.name (names_of keys)))
          ≡ ok out)
  throws t out e = elim (bind_ok (primary_key_columns t.columns t.constraints) _ out e) [
    | returned keys found f ↦ err-not_ok f
  ]

  insert_clustered-IsInserted :
      (values : List (SqlValue R)) (skip : Bool) (t t' : Table R X) (id : ℤ)
      → IsNumberedTable t
      → insert_clustered h to_text to_upper values skip t ≡ ok (id, t')
      → IsInserted t id t'
  unfolding insert_clustered
  insert_clustered-IsInserted values skip t t' id n e =
      elim (bind_ok (allocate_rowid t) _ (id, t') e) [
        | returned (rowid, found) allocation e1 ↦
            elim (bind_ok (validate_unless h to_text to_upper skip values t) _ (id, t') e1) [
              | returned u valid e2 ↦
                  elim (bind_ok (make_cluster_key h to_upper values t) _ (id, t') e2) [
                    | returned key made e3 ↦
                        elim (Bool-cases (is_some (lookup key t.clustered_rows))) [
                          | inl there ↦ absurd (throws t (id, t') (sym (if_true _ _ there) ∙ e3))
                          | inr new ↦
                              add_row-IsInserted rowid values found
                                (set key (record { rowid = rowid; values = values })
                                  t.clustered_rows)
                                t t' id (allocate_rowid-IsFree t rowid found allocation n)
                                (allocate_rowid-IsNumbered t rowid found allocation)
                                (sym (if_false _ _ new) ∙ e3)
                        ]
                  ]
            ]
      ]

  -- Where the table is in order, a row is inserted at a free rowid.
  pub insert-IsInserted :
      (supplied : Option ℤ) (input : RowValues R) (prepared skip : Bool) (t t' : Table R X) (id : ℤ)
      → IsNumberedTable t
      → insert h to_text to_upper supplied input prepared skip t ≡ ok (id, t')
      → IsInserted t id t'
  unfolding insert
  insert-IsInserted supplied input prepared skip t t' id n e =
      elim (bind_ok (assert_mutable t) _ (id, t') e) [
        | returned u writable e1 ↦
            elim (bind_ok (cells_from_input h to_upper input prepared t) _ (id, t') e1) [
              | returned values given e2 ↦ elim (Bool-cases t.without_rowid) [
                | inl clustered ↦
                    let (unnamed, e3) =
                      guard_ok (is_some supplied) _ _ (id, t') (sym (if_true _ _ clustered) ∙ e2) in
                    insert_clustered-IsInserted values skip t t' id n e3
                | inr heap ↦
                    insert_heap-IsInserted supplied values skip t t' id
                      (sym (if_false _ _ heap) ∙ e2)
              ]
            ]
      ]
