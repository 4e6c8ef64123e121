-- ===== src/Transactions/Runs.antt =====
-- Transactions on a small database: one table, whose content is a number here.
use sqlite_mem.Prelude.{
  ℕ, codes, false, some, List, [], ◌∷◌, ◌≡◌, refl, arith, text_eq, lower_beyond,
}
use sqlite_mem.Prelude.Int.{pos}
use sqlite_mem.Storage.Cow.{Object, get_writable, mark, clone_all}
use sqlite_mem.Storage.State.{Store}
use sqlite_mem.Transactions.{
  Manager, Command, begin_stmt, rollback_to_stmt, savepoint_stmt, release_stmt, change_table,
  change_values, count_changes, draw, new_manager, find_savepoint, step, run,
}
use sqlite_mem.Transactions.Spec.{Contents}
use sqlite_mem.Transactions.Abstraction.{Inv, Owns, contents_of}
use sqlite_mem.Transactions.Laws.{new_manager-Inv}

abbrev users : Object ℕ
users = record { name = codes "Users"; content = 5; frozen = false }

abbrev store : Store ℕ ℕ ℕ
store = record {
  objects = record {
    tables = record { next = 1; at = λ r. users };
    indexes = record { next = 0; at = λ r. users };
  };
  state = record {
    tables = (codes "users", 0) ∷ [];
    indexes = [];
    values = 7;
    last_insert_rowid = pos 0;
    changes = 0;
    total_changes = 0;
  };
}

abbrev manager : Manager ℕ ℕ ℕ
manager = new_manager store 42

store-Owns : Owns store.objects store.state
store-Owns = record {
  tables = record { below = (omega arith, tt); named = (refl, tt); distinct = (refl, tt) };
  indexes = record { below = tt; named = tt; distinct = tt };
}

manager-Inv : Inv manager
manager-Inv = new_manager-Inv store 42 store-Owns (omega arith)

abbrev write : ℕ → Command ℕ ℕ ℕ
write n = change_table (codes "USERS") (λ old. n)

abbrev work : List (Command ℕ ℕ ℕ)
work =
    write 6
    ∷ savepoint_stmt (codes "a")
    ∷ write 8
    ∷ count_changes 1 (some (pos 3))
    ∷ rollback_to_stmt (codes "A")
    ∷ draw
    ∷ release_stmt (codes "b")
    ∷ []

abbrev statements : List (Command ℕ ℕ ℕ)
statements = write 6 ∷ draw ∷ count_changes 1 (some (pos 3)) ∷ change_values (λ v. 9) ∷ []

-- The rows of the table, as the manager's state and the saved states show them.
abbrev rows : Manager ℕ ℕ ℕ → Contents ℕ ℕ ℕ
rows m = contents_of m.store.objects m.store.state

written_in_savepoint :
    (rows
      (run step
        (begin_stmt ∷ write 6 ∷ savepoint_stmt (codes "a") ∷ write 8 ∷ [])
        manager).state).tables
    ≡ (codes "users", (codes "Users", 8)) ∷ []
unfolding run step get_writable text_eq mark
written_in_savepoint = refl

rolled_back_to :
    (rows (run step (begin_stmt ∷ work) manager).state).tables
    ≡ (codes "users", (codes "Users", 6)) ∷ []
unfolding run step get_writable text_eq mark clone_all
rolled_back_to = refl

-- A savepoint É is found by the name é.
found_by_small_letter :
    find_savepoint {D = ℕ} (233 ∷ []) (record { name = 201 ∷ []; state = 1; prng_state = 0 } ∷ [])
    ≡ some 0
unfolding find_savepoint text_eq lower_beyond
found_by_small_letter = refl
