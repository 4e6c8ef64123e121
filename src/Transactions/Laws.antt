-- ===== src/Transactions/Laws.antt =====
-- What a rollback of the manager returns to: the laws of the plain database, over shared objects.
use sqlite_mem.Prelude.{
  ℕ, ◌<◌, ◌^◌, Text, true, false, none, some, List, ◌∷◌, ◌≡◌, refl, ap, inl, inr,
}
use mathlib.Core.Path.{subst}
use sqlite_mem.Prelude.{Option-cases}
use sqlite_mem.Errors.{Result, ok, err}
use sqlite_mem.Storage.State.{Store}
use sqlite_mem.Transactions.{
  Manager, Command, begin_stmt, rollback_stmt, rollback_to_stmt, savepoint_stmt, step, rollback,
  run, new_manager, in_transaction,
}
use sqlite_mem.Transactions.Spec.{Database, idle, spec_step}
use sqlite_mem.Transactions.Abstraction.{Inv, Owns, database_of}
use sqlite_mem.Transactions.Control.{Refines}
use sqlite_mem.Transactions.Refinement.{step-Refines, run-refines}
use sqlite_mem.Transactions.Unwinding.{is_inner, is_change, all}
use sqlite_mem.Transactions.Returns.{spec_rollback_lem, spec_rollback_to_lem}

module _ {T I V : Type 0} where
  -- A manager over a well-formed state keeps the invariant.
  pub new_manager-Inv :
      (s : Store T I V) (p : ℕ) → Owns s.objects s.state → p < 2 ^ 64 → Inv (new_manager s p)
  new_manager-Inv s p o l = record { live = o; random = l; base = tt; points = tt }

  ok_of_Refines :
      (r : Result (Manager T I V)) (d : Database T I V)
      → Refines r (ok d)
      → (m : Manager T I V) × (r ≡ ok m) × Inv m × (database_of m ≡ d)
  ok_of_Refines (ok m) d (v, e) = (m, refl, v, e)
  ok_of_Refines (err e) d f = cc

  -- A command that succeeds on the database in which a run ends, succeeds on the manager.
  step_after_run :
      (cs : List (Command T I V)) (c : Command T I V) (m : Manager T I V)
      → (f : Database T I V → Database T I V) → Inv m
      → (let e = (run spec_step cs (database_of m)).state in spec_step c e ≡ ok (f e))
      → (m' : Manager T I V) × (step c (run step cs m).state ≡ ok m')
        × Inv m'
        × (database_of m' ≡ f (database_of (run step cs m).state))
  step_after_run cs c m f v e =
      let (g, w) = run-refines cs m v in
      let same : (run spec_step cs (database_of m)).state ≡ database_of (run step cs m).state =
        ap (λ x. x.state) g in
      ok_of_Refines (step c (run step cs m).state) (f (database_of (run step cs m).state)) (
        subst (λ r. Refines (step c (run step cs m).state) r)
          (subst (λ d. spec_step c d ≡ ok (f d)) same e) (step-Refines c (run step cs m).state w))

  no_base : (m : Manager T I V) → in_transaction m ≡ false → (database_of m).base ≡ none
  no_base m e = elim (Option-cases m.transaction_snapshot) [
    | inl closed ↦ rw closed refl
    | inr (d, opened) ↦ cc (rw opened at e)
  ]

  -- After BEGIN and any commands other than COMMIT and ROLLBACK, ROLLBACK succeeds: tables (with the
  -- references to their rows), indexes, the other values and the random generator are as they were
  -- before BEGIN, the counters are as the commands left them, and no transaction is open.
  pub rollback_restores :
      (m : Manager T I V) (cs : List (Command T I V))
      → Inv m
      → in_transaction m ≡ false
      → all is_inner cs ≡ true
      → let n = (run step (begin_stmt ∷ cs) m).state in
        (m' : Manager T I V) × (rollback none n ≡ ok m')
        × Inv m'
        × (database_of m'
            ≡ idle (record (database_of n) { contents = (database_of m).contents; prng = m.prng }))
  unfolding step
  rollback_restores m cs v closed inner =
      step_after_run (begin_stmt ∷ cs) rollback_stmt m
        (λ e. idle (record e { contents = (database_of m).contents; prng = m.prng })) v
        (spec_rollback_lem cs (database_of m) (no_base m closed) inner)

  -- After SAVEPOINT and any statements, ROLLBACK TO the savepoint succeeds: tables (with the
  -- references to their rows), indexes, the other values and the random generator are as they were
  -- before SAVEPOINT; the counters, the open transaction and the savepoints are as the statements left
  -- them.
  pub rollback_to_restores :
      (m : Manager T I V) (name : Text) (cs : List (Command T I V))
      → Inv m
      → all is_change cs ≡ true
      → let n = (run step (savepoint_stmt name ∷ cs) m).state in
        (m' : Manager T I V) × (rollback (some name) n ≡ ok m')
        × Inv m'
        × (database_of m'
            ≡ record (database_of n) { contents = (database_of m).contents; prng = m.prng })
  unfolding step
  rollback_to_restores m name cs v change =
      step_after_run (savepoint_stmt name ∷ cs) (rollback_to_stmt name) m
        (λ e. record e { contents = (database_of m).contents; prng = m.prng }) v
        (spec_rollback_to_lem name cs (database_of m) change)
