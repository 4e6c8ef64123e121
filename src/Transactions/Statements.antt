-- ===== src/Transactions/Statements.antt =====
-- What statements do to the state refines what they do to the plain database.
use sqlite_mem.Prelude.{Text, codes, to_lower, ◌++◌, ◌≡◌, refl, inl, inr, Option-cases}
use sqlite_mem.Errors.{ok, err, sqlite_error, no_such_table, other}
use sqlite_mem.Storage.Cow.{get_writable, write_at}
use sqlite_mem.Storage.Cow.Writes.{
  Keeps-Grows, IsWritten, get_writable-IsWritten, modify_of_missing,
}
use sqlite_mem.Storage.Cow.Owned.{Grows-refl}
use sqlite_mem.Storage.State.{Store, write_table, write_index}
use sqlite_mem.Transactions.{Manager, with_store}
use sqlite_mem.Transactions.Spec.{Contents, change_entry}
use sqlite_mem.Transactions.Abstraction.{
  Owns, Inv, KeepsSaved, contents_of, counters_of, database_of, BaseSaved-KeepsSaved,
  base_of-KeepsSaved, PointsSaved-KeepsSaved, points_of-KeepsSaved,
}
use sqlite_mem.Transactions.Control.{Refines}

module _ {T I V : Type 0} where
  -- A new store whose objects keep what is saved.
  pub stored-Refines :
      (m : Manager T I V) (s : Store T I V) (c : Contents T I V)
      → Inv m
      → KeepsSaved m.store.objects s.objects
      → Owns s.objects s.state
      → contents_of s.objects s.state ≡ c
      → counters_of s.state ≡ counters_of m.store.state
      → Refines (ok (record m { store = s })) (ok (record (database_of m) { contents = c }))
  stored-Refines m s c v k o e f = (
    record {
      live = o;
      random = v.random;
      base = BaseSaved-KeepsSaved k _ _ v.base;
      points = PointsSaved-KeepsSaved k m.savepoints v.points;
    },
    rw (e, f, base_of-KeepsSaved k _ _ v.base, points_of-KeepsSaved k m.savepoints v.points) refl,
  )

  pub change_table-Refines :
      (name : Text) (f : T → T) (m : Manager T I V)
      → Inv m
      → Refines (with_store m (write_table name f m.store)) (
          change_entry name f
            (database_of m).contents.tables
            (err (sqlite_error (codes "no such table: " ++ name) no_such_table))
            (λ t. record (database_of m) {
              contents = record (database_of m).contents { tables = t };
            }))
  unfolding write_table
  change_table-Refines name f m v =
      let s = m.store in
      elim (Option-cases (get_writable s.objects.tables s.state.tables name)) [
        | inl missing ↦
            rw
              (
                missing,
                write_table,
                change_entry,
                modify_of_missing s.objects.tables s.state.tables name f missing,
              )
              refl
        | inr (w, found) ↦
            let r : IsWritten s.objects.tables s.state.tables (to_lower name) f w =
              get_writable-IsWritten s.objects.tables s.state.tables name f w v.live.tables found in
            rw (found, write_table, change_entry, r.modified)
              (stored-Refines m
                (record {
                  objects = record s.objects { tables = write_at f w };
                  state = record s.state { tables = w.refs };
                })
                _ v
                (record { tables = r.keeps; indexes = Keeps-Grows (Grows-refl s.objects.indexes) })
                (record { tables = r.owned; indexes = v.live.indexes }) refl refl)
      ]

  pub change_index-Refines :
      (name : Text) (f : I → I) (m : Manager T I V)
      → Inv m
      → Refines (with_store m (write_index name f m.store)) (
          change_entry name f
            (database_of m).contents.indexes
            (err (sqlite_error (codes "no such index: " ++ name) other))
            (λ t. record (database_of m) {
              contents = record (database_of m).contents { indexes = t };
            }))
  unfolding write_index
  change_index-Refines name f m v =
      let s = m.store in
      elim (Option-cases (get_writable s.objects.indexes s.state.indexes name)) [
        | inl missing ↦
            rw
              (
                missing,
                write_index,
                change_entry,
                modify_of_missing s.objects.indexes s.state.indexes name f missing,
              )
              refl
        | inr (w, found) ↦
            let r : IsWritten s.objects.indexes s.state.indexes (to_lower name) f w =
              get_writable-IsWritten s.objects.indexes s.state.indexes name f w v.live.indexes
                found in
            rw (found, write_index, change_entry, r.modified)
              (stored-Refines m
                (record {
                  objects = record s.objects { indexes = write_at f w };
                  state = record s.state { indexes = w.refs };
                })
                _ v
                (record { tables = Keeps-Grows (Grows-refl s.objects.tables); indexes = r.keeps })
                (record { tables = v.live.tables; indexes = r.owned }) refl refl)
      ]
