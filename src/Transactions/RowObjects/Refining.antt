-- ===== src/Transactions/RowObjects/Refining.antt =====
-- Statements over shared objects and shared rows do what they do to the plain database and the rows.
use sqlite_mem.Prelude.{Text, to_lower, Option-cases, List, [], ◌∷◌, ◌≡◌, refl, sym, ap, inl, inr}
use sqlite_mem.Storage.Cow.Maps.{lookup}
use sqlite_mem.Storage.Cow.Views.{lookup-view-none, lookup-view-some}
use sqlite_mem.Transactions.{Manager, step}
use sqlite_mem.Transactions.Spec.{Database}
use sqlite_mem.Transactions.Abstraction.{Inv, database_of}
use sqlite_mem.Transactions.Refinement.{step-Refines, attempt_of_Refines}
use sqlite_mem.Transactions.RowObjects.{
  Held, RowObjects, Statement, statement, alter_table, Machine, command_of, rows_after, mutate_held,
  execute, run_statements, held_by, held_in, run_manager, run_database,
}

module _ {F I V : Type 0} where
  pub held_in-database_of :
      (name : Text) (m : Manager (Held F) I V) → held_in name (database_of m) ≡ held_by name m
  unfolding held_in held_by
  held_in-database_of name m = elim (Option-cases (lookup (to_lower name) m.store.state.tables)) [
    | inl missing ↦
        rw
          (
            missing,
            lookup-view-none m.store.objects.tables (to_lower name) m.store.state.tables missing,
            held_in,
            held_by,
          )
          refl
    | inr (r, found) ↦
        rw
          (
            found,
            lookup-view-some m.store.objects.tables (to_lower name) m.store.state.tables r found,
            held_in,
            held_by,
          )
          refl
  ]

module _ {F I V A : Type 0} where
  -- The plain database that a machine's manager stands for, with the same `Row` objects.
  abbrev pub plain_machine : Machine (Manager (Held F) I V) A → Machine (Database (Held F) I V) A
  plain_machine m = record { state = database_of m.state; rows = m.rows }

  rows_after-database_of :
      (s : Statement F I V A) (m : Manager (Held F) I V) (w : RowObjects A)
      → rows_after (λ name. held_in name (database_of m)) s w
        ≡ rows_after (λ name. held_by name m) s w
  rows_after-database_of (statement made k) m w = refl
  rows_after-database_of (alter_table name f g) m w =
      ap (λ t. mutate_held g t w) (held_in-database_of name m)

  -- Any statements, ALTER TABLE among them, on a manager that keeps the invariant throw the errors
  -- that they throw on the plain database that the manager stands for, and end in a manager that
  -- keeps the invariant, the database that it stands for, and the same `Row` objects.
  pub run_manager-refines :
      (ss : List (Statement F I V A)) (m : Machine (Manager (Held F) I V) A)
      → Inv m.state
      → (run_database ss (plain_machine m) ≡ record {
        errors = (run_manager ss m).errors;
        machine = plain_machine (run_manager ss m).machine;
      })
        × Inv (run_manager ss m).machine.state
  unfolding run_statements
  run_manager-refines [] m v = (refl, v)
  run_manager-refines (s ∷ ss) m v =
      let c = command_of m.rows.next s in
      let (w, e, f) = attempt_of_Refines m.state _ _ v (step-Refines c m.state v) in
      let (g, i) = run_manager-refines ss (execute step held_by s m) w in
      (rw (sym e, f, rows_after-database_of s m.state m.rows, g) refl, i)
