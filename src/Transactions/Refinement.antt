-- ===== src/Transactions/Refinement.antt =====
-- The manager over shared objects does what transactions mean, for every sequence of commands.
use sqlite_mem.Prelude.{ℕ, Option, none, some, List, [], ◌∷◌, ◌≡◌, refl, sym, ap}
use sqlite_mem.Prelude.Int.{ℤ}
use sqlite_mem.Errors.{Result, ok, err}
use sqlite_mem.Runtime.Prng.{next_state-lt}
use sqlite_mem.Storage.State.{record_change, DatabaseState}
use sqlite_mem.Transactions.{
  Manager, Command, begin_stmt, commit_stmt, rollback_stmt, rollback_to_stmt, savepoint_stmt,
  release_stmt, change_table, change_index, change_values, count_changes, draw, step, run, after,
  thrown,
}
use sqlite_mem.Transactions.Spec.{Database, spec_step}
use sqlite_mem.Transactions.Abstraction.{Inv, database_of}
use sqlite_mem.Transactions.Control.{Refines, begin-Refines, commit-Refines, rollback_all-Refines}
use sqlite_mem.Transactions.RollingBack.{rollback_to-Refines}
use sqlite_mem.Transactions.Savepoints.{savepoint-Refines}
use sqlite_mem.Transactions.Releases.{release-Refines}
use sqlite_mem.Transactions.Statements.{change_table-Refines, change_index-Refines}

module _ {T I V : Type 0} where
  -- A change of the state's own values.
  edited-Inv :
      (m : Manager T I V) (d : DatabaseState V)
      → Inv m
      → d.tables ≡ m.store.state.tables
      → d.indexes ≡ m.store.state.indexes
      → Inv (record m { store = record m.store { state = d } })
  edited-Inv m d v e f = record {
    live = record { tables = rw e v.live.tables; indexes = rw f v.live.indexes };
    random = v.random;
    base = v.base;
    points = v.points;
  }

  count_changes-Refines :
      (n : ℕ) (r : Option ℤ) (m : Manager T I V)
      → Inv m
      → Refines (step (count_changes n r) m) (spec_step (count_changes n r) (database_of m))
  unfolding step spec_step record_change
  count_changes-Refines n none m v = (edited-Inv m _ v refl refl, refl)
  count_changes-Refines n (some r) m v = (edited-Inv m _ v refl refl, refl)

  pub step-Refines :
      (c : Command T I V) (m : Manager T I V)
      → Inv m
      → Refines (step c m) (spec_step c (database_of m))
  unfolding step spec_step
  step-Refines begin_stmt m v = begin-Refines m v
  step-Refines commit_stmt m v = commit-Refines m v
  step-Refines rollback_stmt m v = rollback_all-Refines m v
  step-Refines (rollback_to_stmt name) m v = rollback_to-Refines name m v
  step-Refines (savepoint_stmt name) m v = savepoint-Refines name m v
  step-Refines (release_stmt name) m v = release-Refines name m v
  step-Refines (change_table name f) m v = change_table-Refines name f m v
  step-Refines (change_index name f) m v = change_index-Refines name f m v
  step-Refines (change_values f) m v = (edited-Inv m _ v refl refl, refl)
  step-Refines (count_changes n r) m v = count_changes-Refines n r m v
  step-Refines draw m v = (
    record { live = v.live; random = next_state-lt m.prng; base = v.base; points = v.points },
    refl,
  )

  -- One command: what it throws, and what the manager then stands for.
  pub attempt_of_Refines :
      (m : Manager T I V) (r : Result (Manager T I V)) (d : Result (Database T I V))
      → Inv m
      → Refines r d
      → Inv (after m r)
        × (database_of (after m r) ≡ after (database_of m) d)
        × (thrown d ≡ thrown r)
  attempt_of_Refines m (ok n) (ok d) v (w, e) = (w, e, refl)
  attempt_of_Refines m (ok n) (err f) v e = cc
  attempt_of_Refines m (err e) (ok d) v f = cc
  attempt_of_Refines m (err e) (err f) v p = (v, refl, ap some (sym p))

  -- A sequence of commands on a manager that keeps the invariant throws the errors that it throws on
  -- the plain database that the manager stands for, and ends in a manager that keeps the invariant
  -- and stands for the database in which that ends.
  pub run-refines :
      (cs : List (Command T I V)) (m : Manager T I V)
      → Inv m
      → (run spec_step cs (database_of m)
          ≡ record { errors = (run step cs m).errors; state = database_of (run step cs m).state })
        × Inv (run step cs m).state
  unfolding run
  run-refines [] m v = (refl, v)
  run-refines (c ∷ cs) m v =
      let (w, e, f) = attempt_of_Refines m _ _ v (step-Refines c m v) in
      let (g, i) = run-refines cs (after m (step c m)) w in (rw (sym e, f, g) refl, i)

  -- Every command keeps the invariant, whether it throws or not.
  pub step-Inv : (c : Command T I V) (m : Manager T I V) → Inv m → Inv (after m (step c m))
  step-Inv c m v = (attempt_of_Refines m _ _ v (step-Refines c m v)).0
