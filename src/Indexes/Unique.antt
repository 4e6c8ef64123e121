-- ===== src/Indexes/Unique.antt =====
-- A unique index has one rowid at most under a row of values without null.
use sqlite_mem.Prelude.{
  ◌≤◌, Text, true, false, some, List, length, text_eq, text_eq→eq, ◌≡◌, refl, ◌∙◌, arith, inl, inr,
  Bool-cases, Option-cases,
}
use sqlite_mem.Prelude.Int.{ℤ}
use sqlite_mem.Errors.{ok}
use sqlite_mem.Storage.Cow.Maps.{lookup}
use sqlite_mem.Types.Value.{SqlValue}
use sqlite_mem.Indexes.Keys.{has_null, serialize_entry}
use sqlite_mem.Indexes.Keys.Injective.{serialize_entry-injective, has_null_of_parts}
use sqlite_mem.Indexes.{IndexStore, all_same, any_same, or_none, check_unique, insert, lookup_ids}
use sqlite_mem.Indexes.Insertion.{
  same_and_none, added, insert-cases, lookup_ids_of_entries, lookup_ids-insert,
}

module _ {R : Type 0} (to_text : R → Text) where
  -- One rowid at most under the values of each row without null.
  pub record IsUnique (s : IndexStore R) : Type 0 where
    pub few : (values : List (SqlValue R)) → length (lookup_ids to_text values s) ≤ 1

  -- A check that passes has seen no other rowid.
  passes-all_same :
      (values : List (SqlValue R)) (rowid : ℤ) (t : IndexStore R)
      → has_null values ≡ false
      → check_unique to_text values (some rowid) t ≡ ok tt
      → all_same (some rowid) (or_none (lookup (serialize_entry to_text values) t.entries)) ≡ true
  unfolding check_unique all_same
  passes-all_same values rowid t h e =
      elim (Option-cases (lookup (serialize_entry to_text values) t.entries)) [
        | inl new ↦ rw new refl
        | inr (ids, old) ↦ elim (Bool-cases (all_same (some rowid) ids)) [
          | inl same ↦ rw old same
          | inr other ↦ cc (rw (h, check_unique, old, other) at e)
        ]
      ]

  same_key-has_null :
      (vs ws : List (SqlValue R))
      → text_eq (serialize_entry to_text vs) (serialize_entry to_text ws) ≡ true
      → has_null vs ≡ has_null ws
  same_key-has_null vs ws e = has_null_of_parts to_text vs ws (
      serialize_entry-injective to_text vs ws
        (text_eq→eq (serialize_entry to_text vs) (serialize_entry to_text ws) e))

  -- So has an insertion that returned, under each row of the same key.
  ids-all_same :
      (values : List (SqlValue R)) (rowid : ℤ) (s s' : IndexStore R) (ws : List (SqlValue R))
      → insert to_text values rowid true s ≡ ok s'
      → has_null ws ≡ false
      → text_eq (serialize_entry to_text values) (serialize_entry to_text ws) ≡ true
      → all_same (some rowid) (lookup_ids to_text ws s) ≡ true
  ids-all_same values rowid s s' ws e h key =
      let (t, same, passes, done) = insert-cases to_text values rowid true s s' e in
      let a = passes-all_same values rowid t (same_key-has_null values ws key ∙ h) passes in
      rw
        (
          lookup_ids_of_entries to_text ws s h,
          ← same,
          ← text_eq→eq (serialize_entry to_text values) (serialize_entry to_text ws) key,
        )
        a

  -- At most one, with the rowid added.
  added-few :
      (rowid : ℤ) (ids : List ℤ)
      → all_same (some rowid) ids ≡ true
      → length ids ≤ 1
      → length (added rowid ids) ≤ 1
  added-few rowid ids a l = elim (Bool-cases (any_same rowid ids)) [
    | inl among ↦ rw among l
    | inr more ↦ rw (more, same_and_none rowid ids a more) (omega arith)
  ]

  -- An insertion into a unique index that returns keeps it unique: under the values of each row
  -- without null there is one rowid at most.
  pub insert-IsUnique :
      (values : List (SqlValue R)) (rowid : ℤ) (s s' : IndexStore R)
      → IsUnique s
      → insert to_text values rowid true s ≡ ok s'
      → IsUnique s'
  unfolding lookup_ids
  insert-IsUnique values rowid s s' u e = record {
    few = λ ws. elim (Bool-cases (has_null ws)) [
      | inl null_row ↦ rw (null_row, lookup_ids) (omega arith)
      | inr whole ↦
          rw (lookup_ids-insert to_text values rowid true s s' ws e whole)
            (elim (Bool-cases
              (text_eq (serialize_entry to_text values) (serialize_entry to_text ws))) [
                | inr other ↦ rw other (u.few ws)
                | inl same ↦ rw same (
                    added-few rowid (lookup_ids to_text ws s)
                      (ids-all_same values rowid s s' ws e whole same) (u.few ws))
              ])
    ];
  }
