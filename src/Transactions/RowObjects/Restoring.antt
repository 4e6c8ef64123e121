-- ===== src/Transactions/RowObjects/Restoring.antt =====
-- What the tables show after a rollback: the rows with their values, and what ALTER TABLE does there.
use sqlite_mem.Prelude.{
  ℕ, suc, ◌+◌, ◌<◌, arith, Text, Bool, true, false, Option, Option-cases, inl, inr, none, some,
  List, [], ◌∷◌, length, if◌then◌else◌, ◌==◌, ◌≡◌, refl, sym, ap, ◌∙◌,
}
use mathlib.Core.Path.{subst}
use sqlite_mem.Prelude.Int.{ℤ}
use sqlite_mem.Errors.{ok}
use sqlite_mem.Storage.Cow.Maps.{Map}
use sqlite_mem.Storage.Cow.Views.{Shown}
use sqlite_mem.Transactions.{
  Manager, Command, begin_stmt, step, run, after, rollback, in_transaction, savepoint_stmt,
}
use sqlite_mem.Transactions.Spec.{Database, idle, spec_step, spec_begin}
use sqlite_mem.Transactions.Refinement.{step-Refines, attempt_of_Refines}
use sqlite_mem.Transactions.Unwinding.{is_inner, is_change, all}
use sqlite_mem.Transactions.Abstraction.{Inv, database_of}
use sqlite_mem.Transactions.Laws.{rollback_restores, rollback_to_restores}
use sqlite_mem.Transactions.RowObjects.{
  Held, RowObjects, add_rows, mutate_rows, mutate_held, Statement, statement, alter_table, Machine,
  command_of, rows_after, execute, run_statements, held_by, held_in, run_manager,
}
use sqlite_mem.Transactions.RowObjects.Refining.{held_in-database_of}

-- Not an ALTER TABLE ADD COLUMN or DROP COLUMN.
abbrev pub replaces_rows : {F I V A : Type 0} → Statement F I V A → Bool
replaces_rows (statement made k) = true
replaces_rows (alter_table name f g) = false

-- A table with the values of its rows.
abbrev pub Plain : Type 0 → Type 0 → Type 0
Plain F A = F × List (ℤ × A)

-- Every row of the tables is one that was made.
abbrev pub RowsBelow : ℕ → List (ℤ × ℕ) → Type 0
RowsBelow n [] = Unit
RowsBelow n ((id, p) ∷ rows) = (p < n) × RowsBelow n rows

abbrev pub HeldBelow : {F : Type 0} → ℕ → Map (Shown (Held F)) → Type 0
HeldBelow n [] = Unit
HeldBelow n ((k, (name, t)) ∷ m) = RowsBelow n t.rows × HeldBelow n m

-- `Row` objects that were there have the values that they had.
abbrev pub SameBelow : {A : Type 0} → RowObjects A → RowObjects A → Type 0
SameBelow w w' = (p : ℕ) → p < w.next → w'.at p ≡ w.at p

module _ {A : Type 0} where
  abbrev pub values_at : RowObjects A → List (ℤ × ℕ) → List (ℤ × A)
  values_at w [] = []
  values_at w ((id, p) ∷ rows) = (id, w.at p) ∷ values_at w rows

  -- What the tables show.
  abbrev pub plain_tables :
      {F : Type 0} → RowObjects A → Map (Shown (Held F)) → Map (Shown (Plain F A))
  plain_tables w [] = []
  plain_tables w ((k, (name, t)) ∷ m) =
      (k, (name, (t.fields, values_at w t.rows))) ∷ plain_tables w m

  values_at-SameBelow :
      (w w' : RowObjects A) (rows : List (ℤ × ℕ))
      → SameBelow w w'
      → RowsBelow w.next rows
      → values_at w' rows ≡ values_at w rows
  values_at-SameBelow w w' [] s b = refl
  values_at-SameBelow w w' ((id, p) ∷ rows) s (l, b) =
      rw (s p l, values_at-SameBelow w w' rows s b) refl

  plain_tables-SameBelow :
      {F : Type 0} (w w' : RowObjects A) (m : Map (Shown (Held F)))
      → SameBelow w w'
      → HeldBelow w.next m
      → plain_tables w' m ≡ plain_tables w m
  plain_tables-SameBelow w w' [] s b = refl
  plain_tables-SameBelow w w' ((k, (name, t)) ∷ m) s (l, b) =
      rw (values_at-SameBelow w w' t.rows s l, plain_tables-SameBelow w w' m s b) refl

  add_rows_next : (made : List A) (w : RowObjects A) → (add_rows made w).next ≡ w.next + length made
  unfolding add_rows
  add_rows_next [] w = omega arith
  add_rows_next (a ∷ bs) w =
      let e =
        add_rows_next bs
          (record { next = suc w.next; at = λ q. if q == w.next then a else w.at q }) in
      omega arith

  add_rows-SameBelow : (made : List A) (w : RowObjects A) → SameBelow w (add_rows made w)
  unfolding add_rows
  add_rows-SameBelow [] w p l = refl
  add_rows-SameBelow (a ∷ bs) w p l =
      let w' : RowObjects A = record {
        next = suc w.next;
        at = λ q. if q == w.next then a else w.at q;
      } in
      add_rows-SameBelow bs w' p (omega arith) ∙ ground arith

  mutate_rows_next :
      (g : A → A) (rows : List (ℤ × ℕ)) (w : RowObjects A) → (mutate_rows g rows w).next ≡ w.next
  unfolding mutate_rows
  mutate_rows_next g [] w = refl
  mutate_rows_next g ((id, p) ∷ rows) w =
      mutate_rows_next g rows (record w { at = λ q. if q == p then g (w.at q) else w.at q })

module _ {F I V : Type 0} where
  held_in_same :
      (name : Text) (d e : Database (Held F) I V)
      → d.contents ≡ e.contents
      → held_in name d ≡ held_in name e
  unfolding held_in
  held_in_same name d e p = ap (λ c. held_in name (record d { contents = c })) p

  begun_contents :
      (d : Database (Held F) I V) → (after d (spec_step begin_stmt d)).contents ≡ d.contents
  unfolding spec_step spec_begin
  begun_contents d = elim (Option-cases d.base) [
    | inl idle_now ↦ rw (idle_now, spec_step, spec_begin) refl
    | inr (b, running) ↦ rw (running, spec_step, spec_begin) refl
  ]

  -- BEGIN changes no table.
  held_by-begin :
      (name : Text) (m : Manager (Held F) I V)
      → Inv m
      → held_by name (after m (step begin_stmt m)) ≡ held_by name m
  held_by-begin name m v =
      let (w, e, f) = attempt_of_Refines m _ _ v (step-Refines begin_stmt m v) in
      sym (held_in-database_of name (after m (step begin_stmt m)))
      ∙ held_in_same name (database_of (after m (step begin_stmt m))) (database_of m)
          (ap (λ x. x.contents) e ∙ begun_contents (database_of m))
      ∙ held_in-database_of name m

module _ {F I V A : Type 0} where
  abbrev made_by : Statement F I V A → ℕ
  made_by (statement made k) = length made
  made_by (alter_table name f g) = 0

  -- The commands that statements come to, where `n` is the next address.
  abbrev pub commands_of : ℕ → List (Statement F I V A) → List (Command (Held F) I V)
  commands_of n [] = []
  commands_of n (s ∷ ss) = command_of n s ∷ commands_of (n + made_by s) ss

  rows_after_next :
      (held : Text → Option (Held F)) (s : Statement F I V A) (w : RowObjects A)
      → (rows_after held s w).next ≡ w.next + made_by s
  rows_after_next held (statement made k) w = add_rows_next made w
  rows_after_next held (alter_table name f g) w = mutated (held name)
    where
      mutated : (o : Option (Held F)) → (mutate_held g o w).next ≡ w.next + 0
      mutated none = omega arith
      mutated (some t) = mutate_rows_next (g t.fields) t.rows w ∙ omega arith

  run_manager_state :
      (ss : List (Statement F I V A)) (m : Machine (Manager (Held F) I V) A)
      → (run_manager ss m).machine.state ≡ (run step (commands_of m.rows.next ss) m.state).state
  unfolding run_statements run
  run_manager_state [] m = refl
  run_manager_state (s ∷ ss) m =
      run_manager_state ss (execute step held_by s m)
      ∙ ap
          (λ n.
            (run step (commands_of n ss)
              (after m.state (step (command_of m.rows.next s) m.state))).state)
          (rows_after_next (λ name. held_by name m.state) s m.rows)

  run_manager-SameBelow :
      (ss : List (Statement F I V A)) (m : Machine (Manager (Held F) I V) A)
      → all replaces_rows ss ≡ true
      → SameBelow m.rows (run_manager ss m).machine.rows
  unfolding run_statements
  run_manager-SameBelow [] m e p l = refl
  run_manager-SameBelow (alter_table name f g ∷ ss) m e p l = cc
  run_manager-SameBelow (statement made k ∷ ss) m e p l =
      let n = execute step held_by (statement made k) m in
      let next = add_rows_next made m.rows in
      run_manager-SameBelow ss n e p (omega arith) ∙ add_rows-SameBelow made m.rows p l

  -- A statement that makes no `Row` objects.
  abbrev pub plainly : Command (Held F) I V → Statement F I V A
  plainly c = statement [] (λ made. c)

  behind_first :
      (c : Command (Held F) I V) (ss : List (Statement F I V A))
      (m : Machine (Manager (Held F) I V) A)
      → (run_manager (plainly c ∷ ss) m).machine.state
        ≡ (run step (c ∷ commands_of m.rows.next ss) m.state).state
  behind_first c ss m =
      run_manager_state (plainly c ∷ ss) m
      ∙ ap (λ n. (run step (c ∷ commands_of n ss) m.state).state) (omega arith)

  restored_tables :
      (ss : List (Statement F I V A)) (m : Machine (Manager (Held F) I V) A)
      (m' : Manager (Held F) I V)
      → all replaces_rows ss ≡ true
      → HeldBelow m.rows.next (database_of m.state).contents.tables
      → (database_of m').contents ≡ (database_of m.state).contents
      → plain_tables (run_manager ss m).machine.rows (database_of m').contents.tables
        ≡ plain_tables m.rows (database_of m.state).contents.tables
  restored_tables ss m m' keeps below same =
      ap (λ c. plain_tables (run_manager ss m).machine.rows c.tables) same
      ∙ plain_tables-SameBelow m.rows (run_manager ss m).machine.rows
          (database_of m.state).contents.tables (run_manager-SameBelow ss m keeps) below

  -- For a manager that keeps the invariant, with no transaction open, and whose tables hold only
  -- rows that were made: after BEGIN and any statements that are not COMMIT, ROLLBACK and ALTER
  -- TABLE ADD or DROP COLUMN, ROLLBACK succeeds. Tables with the values of their rows, indexes,
  -- the other values and the random generator are as they were before BEGIN, the counters are as
  -- the statements left them, no transaction is open, and the invariant holds.
  pub rollback_restores_rows :
      (m : Machine (Manager (Held F) I V) A) (ss : List (Statement F I V A))
      → Inv m.state
      → in_transaction m.state ≡ false
      → HeldBelow m.rows.next (database_of m.state).contents.tables
      → all replaces_rows ss ≡ true
      → all is_inner (commands_of m.rows.next ss) ≡ true
      → let n = (run_manager (plainly begin_stmt ∷ ss) m).machine in
        (m' : Manager (Held F) I V) × (rollback none n.state ≡ ok m')
        × Inv m'
        × (database_of m'
            ≡ idle (record (database_of n.state) {
              contents = (database_of m.state).contents;
              prng = m.state.prng;
            }))
        × (plain_tables n.rows (database_of m').contents.tables
            ≡ plain_tables m.rows (database_of m.state).contents.tables)
  rollback_restores_rows m ss v closed below keeps inner =
      let n = (run_manager (plainly begin_stmt ∷ ss) m).machine in
      let (m', e, w, d) =
        subst
          (λ s.
            (m' : Manager (Held F) I V) × (rollback none s ≡ ok m')
            × Inv m'
            × (database_of m'
                ≡ idle (record (database_of s) {
                  contents = (database_of m.state).contents;
                  prng = m.state.prng;
                })))
          (sym (behind_first begin_stmt ss m))
          (rollback_restores m.state (commands_of m.rows.next ss) v closed inner) in
      (
        m',
        e,
        w,
        d,
        restored_tables (plainly begin_stmt ∷ ss) m m' keeps below (ap (λ x. x.contents) d),
      )

  -- For a manager that keeps the invariant and whose tables hold only rows that were made: after
  -- SAVEPOINT and any statements that do not control transactions and are no ALTER TABLE ADD or
  -- DROP COLUMN, ROLLBACK TO the savepoint succeeds. Tables with the values of their rows,
  -- indexes, the other values and the random generator are as they were before SAVEPOINT; the
  -- counters, the open transaction and the savepoints are as the statements left them, and the
  -- invariant holds.
  pub rollback_to_restores_rows :
      (m : Machine (Manager (Held F) I V) A) (name : Text) (ss : List (Statement F I V A))
      → Inv m.state
      → HeldBelow m.rows.next (database_of m.state).contents.tables
      → all replaces_rows ss ≡ true
      → all is_change (commands_of m.rows.next ss) ≡ true
      → let n = (run_manager (plainly (savepoint_stmt name) ∷ ss) m).machine in
        (m' : Manager (Held F) I V) × (rollback (some name) n.state ≡ ok m')
        × Inv m'
        × (database_of m' ≡ record (database_of n.state) {
          contents = (database_of m.state).contents;
          prng = m.state.prng;
        })
        × (plain_tables n.rows (database_of m').contents.tables
            ≡ plain_tables m.rows (database_of m.state).contents.tables)
  rollback_to_restores_rows m name ss v below keeps change =
      let first = savepoint_stmt name in
      let (m', e, w, d) =
        subst
          (λ s.
            (m' : Manager (Held F) I V) × (rollback (some name) s ≡ ok m')
            × Inv m'
            × (database_of m' ≡ record (database_of s) {
              contents = (database_of m.state).contents;
              prng = m.state.prng;
            }))
          (sym (behind_first first ss m))
          (rollback_to_restores m.state name (commands_of m.rows.next ss) v change) in
      (m', e, w, d, restored_tables (plainly first ∷ ss) m m' keeps below (ap (λ x. x.contents) d))

  -- For a manager that keeps the invariant, with no transaction open, and a table of it: after
  -- BEGIN, an ALTER TABLE ADD or DROP COLUMN of the table that passes its checks, and ROLLBACK,
  -- which succeeds, the table has the columns and the references to rows that it had before BEGIN,
  -- while each of these rows is changed as the ALTER TABLE changes it.
  pub rollback_keeps_altered_rows :
      (m : Machine (Manager (Held F) I V) A) (name : Text) (f : F → F) (g : F → A → A) (t : Held F)
      → Inv m.state
      → in_transaction m.state ≡ false
      → held_by name m.state ≡ some t
      → let n = (run_manager (plainly begin_stmt ∷ alter_table name f g ∷ []) m).machine in
        (m' : Manager (Held F) I V) × (rollback none n.state ≡ ok m')
        × (held_by name m' ≡ some t)
        × (n.rows ≡ mutate_rows (g t.fields) t.rows m.rows)
  unfolding run_statements
  rollback_keeps_altered_rows m name f g t v closed here =
      let ss = alter_table name f g ∷ [] in
      let n = (run_manager (plainly begin_stmt ∷ ss) m).machine in
      let (m', e, w, d) =
        subst
          (λ s.
            (m' : Manager (Held F) I V) × (rollback none s ≡ ok m')
            × Inv m'
            × (database_of m'
                ≡ idle (record (database_of s) {
                  contents = (database_of m.state).contents;
                  prng = m.state.prng;
                })))
          (sym (behind_first begin_stmt ss m))
          (rollback_restores m.state (commands_of m.rows.next ss) v closed refl) in
      (
        m',
        e,
        sym (held_in-database_of name m')
            ∙ held_in_same name (database_of m') (database_of m.state) (ap (λ x. x.contents) d)
            ∙ held_in-database_of name m.state
            ∙ here,
        ap (λ o. mutate_held g o m.rows) (held_by-begin name m.state v ∙ here),
      )
