-- ===== src/Storage/State.antt =====
-- storage/database-state.ts: `DatabaseState`, with what transactions and writes do to it.
-- `T` is the content of a `Table` (with references to its rows), `I` that of an `IndexInfo`, and `V` all else that a state owns by
-- itself: virtual tables, views, triggers, pragma flags and schema versions. A state's maps are values
-- here: no two states hold the same `Map` object. Attached databases are not modelled, so that a name
-- has no schema before it.
use sqlite_mem.Prelude.{ℕ, ◌+◌, Bool, Text, codes, Option, none, some, ◌++◌}
use sqlite_mem.Prelude.Int.{ℤ}
use sqlite_mem.Errors.{Result, ok, err, sqlite_error, no_such_table, other}
use sqlite_mem.Storage.Cow.{Heap, Refs, mark, clone_all, get_writable, write_at}

pub record DatabaseState (V : Type 0) : Type 0 where
  pub tables : Refs
  pub indexes : Refs
  pub values : V
  pub last_insert_rowid : ℤ
  pub changes : ℕ
  pub total_changes : ℕ

-- The objects that states share.
pub record Objects (T I : Type 0) : Type 0 where
  pub tables : Heap T
  pub indexes : Heap I

-- The live state over them.
pub record Store (T I V : Type 0) : Type 0 where
  pub objects : Objects T I
  pub state : DatabaseState V

-- `recordChange`
unfoldable pub record_change : {V : Type 0} → ℕ → Option ℤ → DatabaseState V → DatabaseState V
record_change count none d = record d { changes = count; total_changes = d.total_changes + count }
record_change count (some r) d = record d {
  changes = count;
  total_changes = d.total_changes + count;
  last_insert_rowid = r;
}

-- The counters of `d` put into `e`, as `rollback` does.
abbrev pub with_counters : {V : Type 0} → DatabaseState V → DatabaseState V → DatabaseState V
with_counters d e = record e {
  last_insert_rowid = d.last_insert_rowid;
  changes = d.changes;
  total_changes = d.total_changes;
}

module _ {T I V : Type 0} where
  -- `freezeShared` and `thawShared`
  abbrev pub mark_shared : Bool → Store T I V → Store T I V
  mark_shared b s = record s {
    objects = record {
      tables = mark b s.objects.tables s.state.tables;
      indexes = mark b s.objects.indexes s.state.indexes;
    };
  }

  -- `cloneShallow`: new maps over the same objects, and copies of the values.
  abbrev pub clone_shallow : Store T I V → DatabaseState V
  clone_shallow s = s.state

  -- `replaceWith(state)`: the state becomes a clone, whose tables and indexes are new objects.
  abbrev pub replace_with : DatabaseState V → Store T I V → Store T I V
  replace_with d s =
      let t = clone_all s.objects.tables d.tables in
      let i = clone_all s.objects.indexes d.indexes in
      record {
        objects = record { tables = t.heap; indexes = i.heap };
        state = record d { tables = t.refs; indexes = i.refs };
      }

  -- `replaceWith(state, { adopt: true })`
  abbrev pub adopt : DatabaseState V → Store T I V → Store T I V
  adopt d s = record s { state = d }

  -- A statement that changes a table: `getWritableTable(name)`, then a write through it.
  unfoldable pub write_table : Text → (T → T) → Store T I V → Result (Store T I V)
  write_table name f s = elim (get_writable s.objects.tables s.state.tables name) [
    | none ↦ err (sqlite_error (codes "no such table: " ++ name) no_such_table)
    | some w ↦ ok (record {
      objects = record s.objects { tables = write_at f w };
      state = record s.state { tables = w.refs };
    })
  ]

  -- A statement that changes an index: `getWritableIndex(name)`, then a write through it.
  unfoldable pub write_index : Text → (I → I) → Store T I V → Result (Store T I V)
  write_index name f s = elim (get_writable s.objects.indexes s.state.indexes name) [
    | none ↦ err (sqlite_error (codes "no such index: " ++ name) other)
    | some w ↦ ok (record {
      objects = record s.objects { indexes = write_at f w };
      state = record s.state { indexes = w.refs };
    })
  ]
