-- ===== src/Transactions/RowObjects/Runs.antt =====
-- Statements on a small database, whose tables hold `Row` objects.
use sqlite_mem.Prelude.{ℕ, ◌+◌, codes, false, none, some, List, [], ◌∷◌, ◌≡◌, refl, arith, text_eq}
use sqlite_mem.Prelude.Int.{pos}
use sqlite_mem.Errors.{ok}
use sqlite_mem.Storage.Cow.{Object, get_writable, mark, clone_all}
use sqlite_mem.Storage.State.{Store}
use sqlite_mem.Transactions.{
  Manager, begin_stmt, rollback_to_stmt, savepoint_stmt, change_table, draw, new_manager, step,
  rollback,
}
use sqlite_mem.Transactions.Spec.{idle}
use sqlite_mem.Transactions.Abstraction.{Inv, Owns, database_of}
use sqlite_mem.Transactions.Laws.{new_manager-Inv}
use sqlite_mem.Transactions.RowObjects.{
  Held, add_rows, mutate_rows, Statement, statement, alter_table, Machine, run_statements, held_by,
  run_manager, run_database,
}
use sqlite_mem.Transactions.RowObjects.Refining.{plain_machine, run_manager-refines}
use sqlite_mem.Transactions.RowObjects.Restoring.{
  plainly, plain_tables, rollback_restores_rows, rollback_to_restores_rows,
  rollback_keeps_altered_rows,
}

-- Five columns, and a row that is the object at address 0.
abbrev held : Held ℕ
held = record { fields = 5; rows = (pos 1, 0) ∷ [] }

abbrev users : Object (Held ℕ)
users = record { name = codes "Users"; content = held; frozen = false }

abbrev index : Object ℕ
index = record { name = codes "Names"; content = 0; frozen = false }

abbrev store : Store (Held ℕ) ℕ ℕ
store = record {
  objects = record {
    tables = record { next = 1; at = λ r. users };
    indexes = record { next = 0; at = λ r. index };
  };
  state = record {
    tables = (codes "users", 0) ∷ [];
    indexes = [];
    values = 7;
    last_insert_rowid = pos 0;
    changes = 0;
    total_changes = 0;
  };
}

abbrev manager : Manager (Held ℕ) ℕ ℕ
manager = new_manager store 42

store-Owns : Owns store.objects store.state
store-Owns = record {
  tables = record { below = (omega arith, tt); named = (refl, tt); distinct = (refl, tt) };
  indexes = record { below = tt; named = tt; distinct = tt };
}

manager-Inv : Inv manager
manager-Inv = new_manager-Inv store 42 store-Owns (omega arith)

-- The values of the row are 30.
abbrev machine : Machine (Manager (Held ℕ) ℕ ℕ) ℕ
machine = record { state = manager; rows = record { next = 1; at = λ p. 30 } }

-- INSERT of a row with rowid 2 and the value 40.
abbrev added : List ℕ → Held ℕ → Held ℕ
added [] t = t
added (p ∷ ps) t = record t { rows = (pos 2, p) ∷ t.rows }

abbrev insertion : Statement ℕ ℕ ℕ ℕ
insertion = statement (40 ∷ []) (λ made. change_table (codes "USERS") (added made))

abbrev alteration : Statement ℕ ℕ ℕ ℕ
alteration = alter_table (codes "users") (λ n. n + 1) (λ n a. a + n)

abbrev work : List (Statement ℕ ℕ ℕ ℕ)
work = plainly (savepoint_stmt (codes "a")) ∷ insertion ∷ plainly draw ∷ []

abbrev ran : List (Statement ℕ ℕ ℕ ℕ) → Machine (Manager (Held ℕ) ℕ ℕ) ℕ
ran ss = (run_manager ss machine).machine

-- The savepoint's table has five columns again; its row keeps the value that the ALTER TABLE gave it.
altered_behind_savepoint :
    let n = ran (
      plainly (savepoint_stmt (codes "a"))
      ∷ alteration
      ∷ plainly (rollback_to_stmt (codes "a"))
      ∷ []) in
    plain_tables n.rows (database_of n.state).contents.tables
    ≡ (codes "users", (codes "Users", (5, (pos 1, 35) ∷ []))) ∷ []
unfolding run_statements step get_writable text_eq mark clone_all mutate_rows held_by add_rows
altered_behind_savepoint = refl

run_manager-refines_example :
    let ss = plainly begin_stmt ∷ insertion ∷ alteration ∷ [] in
    (run_database ss (plain_machine machine) ≡ record {
      errors = (run_manager ss machine).errors;
      machine = plain_machine (run_manager ss machine).machine;
    })
    × Inv (run_manager ss machine).machine.state
run_manager-refines_example =
    run_manager-refines (plainly begin_stmt ∷ insertion ∷ alteration ∷ []) machine manager-Inv

rollback_restores_rows_example :
    let n = ran (plainly begin_stmt ∷ work) in
    (m' : Manager (Held ℕ) ℕ ℕ) × (rollback none n.state ≡ ok m')
    × Inv m'
    × (database_of m'
        ≡ idle
            (record (database_of n.state) { contents = (database_of manager).contents; prng = 42 }))
    × (plain_tables n.rows (database_of m').contents.tables
        ≡ plain_tables machine.rows (database_of manager).contents.tables)
rollback_restores_rows_example =
    rollback_restores_rows machine work manager-Inv refl ((omega arith, tt), tt) refl refl

rollback_to_restores_rows_example :
    let n = ran (plainly (savepoint_stmt (codes "s")) ∷ insertion ∷ plainly draw ∷ []) in
    (m' : Manager (Held ℕ) ℕ ℕ) × (rollback (some (codes "s")) n.state ≡ ok m')
    × Inv m'
    × (database_of m'
        ≡ record (database_of n.state) { contents = (database_of manager).contents; prng = 42 })
    × (plain_tables n.rows (database_of m').contents.tables
        ≡ plain_tables machine.rows (database_of manager).contents.tables)
rollback_to_restores_rows_example =
    rollback_to_restores_rows machine (codes "s") (insertion ∷ plainly draw ∷ []) manager-Inv
      ((omega arith, tt), tt) refl refl

users_held : held_by (codes "users") manager ≡ some held
unfolding held_by text_eq
users_held = refl

rollback_keeps_altered_rows_example :
    let n = ran (plainly begin_stmt ∷ alteration ∷ []) in
    (m' : Manager (Held ℕ) ℕ ℕ) × (rollback none n.state ≡ ok m')
    × (held_by (codes "users") m' ≡ some held)
    × (n.rows ≡ mutate_rows (λ a. a + 5) ((pos 1, 0) ∷ []) machine.rows)
rollback_keeps_altered_rows_example =
    rollback_keeps_altered_rows machine (codes "users") (λ n. n + 1) (λ n a. a + n) held manager-Inv
      refl users_held
