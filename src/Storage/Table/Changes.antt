-- ===== src/Storage/Table/Changes.antt =====
-- storage/table.ts: what an operation that returns has changed.
use sqlite_mem.Prelude.{◌≡◌, ap, sym, ◌∙◌, Text, List}
use sqlite_mem.Prelude.Int.{ℤ}
use sqlite_mem.Errors.{ok, bind_ok, returned, ok-injective}
use sqlite_mem.Storage.Cow.Maps.{Map}
use sqlite_mem.Storage.Table.{invalidate_scan, Row, Maximum, Table, set_row}
use sqlite_mem.Storage.Table.Rowids.{advanced_maximum}
use sqlite_mem.Storage.Table.Invariant.{IsNumbered, IsNumberedTable}
use sqlite_mem.Storage.Table.Numbering.{stored_next, store-IsNumbered}
use sqlite_mem.Storage.Table.Hashes.{
  change_cached, with_hashes, index_equality, unindex_equality, add_to_bucket, take_from_bucket,
}
use sqlite_mem.Storage.Table.Storing.{assert_row_shape, commit_row, reindex_equality}

-- The same rows, and what is kept about their rowids.
pub record SameRows {R X : Type 0} (t t' : Table R X) : Type 0 where
  pub rows : t'.rows ≡ t.rows
  pub maximum_rowid : t'.maximum_rowid ≡ t.maximum_rowid
  pub next_rowid : t'.next_rowid ≡ t.next_rowid

-- A row was stored; `found` is the maximum that allocation had left.
pub record IsStored {R X : Type 0} (row : Row R) (found : Maximum) (t t' : Table R X) : Type 0 where
  pub rows : t'.rows ≡ set_row row.rowid row t.rows
  pub maximum_rowid : t'.maximum_rowid ≡ advanced_maximum row.rowid found
  pub next_rowid : t'.next_rowid ≡ stored_next row.rowid t.next_rowid

module _ {R X : Type 0} where
  same : (t t' : Table R X) → ok t ≡ ok t' → SameRows t t'
  same t t' e =
      let p = sym (ok-injective t t' e) in
      record {
        rows = ap (λ x. x.rows) p;
        maximum_rowid = ap (λ x. x.maximum_rowid) p;
        next_rowid = ap (λ x. x.next_rowid) p;
      }

  chain : {t s u : Table R X} → SameRows t s → SameRows s u → SameRows t u
  chain p q = record {
    rows = q.rows ∙ p.rows;
    maximum_rowid = q.maximum_rowid ∙ p.maximum_rowid;
    next_rowid = q.next_rowid ∙ p.next_rowid;
  }

  uncached :
      {t s : Table R X} (t' : Table R X)
      → SameRows t s
      → ok (invalidate_scan s) ≡ ok t'
      → SameRows t t'
  uncached {t} {s} t' p e =
      let q = same (invalidate_scan s) t' e in
      record {
        rows = q.rows ∙ p.rows;
        maximum_rowid = q.maximum_rowid ∙ p.maximum_rowid;
        next_rowid = q.next_rowid ∙ p.next_rowid;
      }

  pub same-IsNumberedTable :
      (t t' : Table R X) → SameRows t t' → IsNumberedTable t → IsNumberedTable t'
  same-IsNumberedTable t t' p n = rw (p.rows, p.maximum_rowid, p.next_rowid) n

  pub stored-chain :
      {row : Row R} {found : Maximum} {t s u : Table R X}
      → IsStored row found t s
      → SameRows s u
      → IsStored row found t u
  stored-chain p q = record {
    rows = q.rows ∙ p.rows;
    maximum_rowid = q.maximum_rowid ∙ p.maximum_rowid;
    next_rowid = q.next_rowid ∙ p.next_rowid;
  }

  pub stored-IsNumberedTable :
      (row : Row R) (found : Maximum) (t t' : Table R X)
      → IsStored row found t t'
      → IsNumbered t.rows found t.next_rowid
      → IsNumberedTable t'
  stored-IsNumberedTable row found t t' p n =
      rw (p.rows, p.maximum_rowid, p.next_rowid) (store-IsNumbered row t.rows found t.next_rowid n)

module _ {R X : Type 0} (to_text : R → Text) (to_upper : Text → Text) where
  hashed :
      (change : Text → ℤ → Map (List ℤ) → Map (List ℤ)) (row : Row R) (t t' : Table R X)
      → with_hashes to_text to_upper change row t ≡ ok t'
      → SameRows t t'
  hashed change row t t' e =
      elim (bind_ok (change_cached to_text to_upper change t.columns row t.equality_hashes) _ t'
        e) [
          | returned hashes changed f ↦
              let p = sym (ok-injective (record t { equality_hashes = hashes }) t' f) in
              record {
                rows = ap (λ x. x.rows) p;
                maximum_rowid = ap (λ x. x.maximum_rowid) p;
                next_rowid = ap (λ x. x.next_rowid) p;
              }
        ]

  pub commit_row-SameRows :
      (row : Row R) (t t' : Table R X) → commit_row to_text to_upper row t ≡ ok t' → SameRows t t'
  unfolding commit_row index_equality
  commit_row-SameRows row t t' e = elim (bind_ok (assert_row_shape row t) _ t' e) [
    | returned u shape f ↦ elim (bind_ok (index_equality to_text to_upper row t) _ t' f) [
      | returned s indexed g ↦ uncached t' (hashed add_to_bucket row t s indexed) g
    ]
  ]

  pub unindex_equality-SameRows :
      (row : Row R) (t t' : Table R X)
      → unindex_equality to_text to_upper row t ≡ ok t'
      → SameRows t t'
  unfolding unindex_equality
  unindex_equality-SameRows row t t' e = hashed take_from_bucket row t t' e

  pub reindex_equality-SameRows :
      (before after : Row R) (t t' : Table R X)
      → reindex_equality to_text to_upper before after t ≡ ok t'
      → SameRows t t'
  unfolding reindex_equality index_equality
  reindex_equality-SameRows before after t t' e =
      elim (bind_ok (unindex_equality to_text to_upper before t) _ t' e) [
        | returned s gone f ↦ elim (bind_ok (index_equality to_text to_upper after s) _ t' f) [
          | returned u indexed g ↦
              uncached t'
                (chain (unindex_equality-SameRows before t s gone)
                  (hashed add_to_bucket after s u indexed))
                g
        ]
      ]
