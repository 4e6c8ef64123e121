-- ===== src/Api/Runs.antt =====
-- Snapshots of a small database: one table, whose rows are a number here.
use sqlite_mem.Prelude.{ℕ, codes, false, [], ◌∷◌, some, ◌≡◌, refl, arith, text_eq}
use sqlite_mem.Prelude.Int.{pos}
use sqlite_mem.Storage.Cow.{Object}
use sqlite_mem.Storage.Cow.Maps.{lookup}
use sqlite_mem.Storage.Cow.Writes.{modify}
use sqlite_mem.Storage.State.{Store}
use sqlite_mem.Transactions.{
  Manager, Command, begin_stmt, commit_stmt, change_table, new_manager, step, run,
}
use sqlite_mem.Transactions.Abstraction.{Inv, Owns, database_of, contents_of}
use sqlite_mem.Transactions.Laws.{new_manager-Inv}
use sqlite_mem.Api.{capture_snapshot}
use sqlite_mem.Api.Thawing.{commit_thaws_snapshot}

abbrev users : Object ℕ
users = record { name = codes "users"; content = 5; frozen = false }

abbrev store : Store ℕ ℕ ℕ
store = record {
  objects = record {
    tables = record { next = 1; at = λ r. users };
    indexes = record { next = 0; at = λ r. users };
  };
  state = record {
    tables = (codes "users", 0) ∷ [];
    indexes = [];
    values = 7;
    last_insert_rowid = pos 0;
    changes = 0;
    total_changes = 0;
  };
}

abbrev manager : Manager ℕ ℕ ℕ
manager = new_manager store 42

store-Owns : Owns store.objects store.state
store-Owns = record {
  tables = record { below = (omega arith, tt); named = (refl, tt); distinct = (refl, tt) };
  indexes = record { below = tt; named = tt; distinct = tt };
}

manager-Inv : Inv manager
manager-Inv = new_manager-Inv store 42 store-Owns (omega arith)

abbrev write : ℕ → Command ℕ ℕ ℕ
write n = change_table (codes "users") (λ old. n)

commit_thaws_snapshot_example :
    let s = capture_snapshot manager in
    let n = (run step (begin_stmt ∷ commit_stmt ∷ write 6 ∷ []) s.manager).state in
    modify (codes "users") (λ old. 6) (database_of manager).contents.tables
    ≡ some (contents_of n.store.objects s.snapshot.state).tables
unfolding lookup text_eq
commit_thaws_snapshot_example =
    commit_thaws_snapshot manager (codes "users") (λ old. 6) 0 manager-Inv refl refl
