-- ===== src/Transactions/RowObjects.antt =====
-- storage/table.ts, executor/ddl.ts: the `Row` objects that tables hold. `Table.clone` copies a
-- table's map from rowids to rows, so that a table and its copy hold the same `Row` objects; nothing
-- freezes these. INSERT, UPDATE and DELETE make new `Row` objects and change which are held; ALTER
-- TABLE ADD COLUMN and DROP COLUMN change the `values` of those that are held.
pub mod Refining
pub mod Restoring
mod Runs
use sqlite_mem.Prelude.{
  ℕ, suc, ◌+◌, ◌<◌, Text, to_lower, Bool, true, false, Option, none, some, List, [], ◌∷◌, length,
  ◌==◌, if◌then◌else◌,
}
use sqlite_mem.Prelude.Int.{ℤ}
use sqlite_mem.Errors.{SqliteError, Result}
use sqlite_mem.Storage.Cow.Maps.{Map, lookup}
use sqlite_mem.Storage.Cow.Views.{Shown}
use sqlite_mem.Transactions.{Manager, Command, change_table, after, thrown, step}
use sqlite_mem.Transactions.Spec.{Database, spec_step}

-- What a `Table` object holds itself: its fields but for the name, the frozen flag and the caches,
-- and its rowids with the addresses of their rows.
pub record Held (F : Type 0) : Type 0 where
  pub fields : F
  pub rows : List (ℤ × ℕ)

-- The `values` of the `Row` objects, by address.
pub record RowObjects (A : Type 0) : Type 0 where
  pub next : ℕ
  pub at : ℕ → A

module _ {A : Type 0} where
  -- `{ rowid, values }`, for each of the values.
  unfoldable pub add_rows : List A → RowObjects A → RowObjects A
  add_rows [] w = w
  add_rows (a ∷ bs) w =
      add_rows bs (record { next = suc w.next; at = λ q. if q == w.next then a else w.at q })

  abbrev pub addresses : ℕ → List A → List ℕ
  addresses n [] = []
  addresses n (a ∷ bs) = n ∷ addresses (suc n) bs

  -- for (const row of table.rows.values()) …, which changes `row.values` where they stand.
  unfoldable pub mutate_rows : (A → A) → List (ℤ × ℕ) → RowObjects A → RowObjects A
  mutate_rows g [] w = w
  mutate_rows g ((id, p) ∷ rows) w =
      mutate_rows g rows (record w { at = λ q. if q == p then g (w.at q) else w.at q })

-- A statement. The first makes `Row` objects with these values, and then does what it does with their
-- addresses; the second is an ALTER TABLE ADD COLUMN or DROP COLUMN behind its checks: what it does to
-- the columns, and to the values of a row.
pub data Statement (F I V A : Type 0) : Type 0 where
  statement : List A → (List ℕ → Command (Held F) I V) → Statement F I V A
  alter_table : Text → (F → F) → (F → A → A) → Statement F I V A

-- A machine: what it runs on, and the `Row` objects.
pub record Machine (S A : Type 0) : Type 0 where
  pub state : S
  pub rows : RowObjects A

-- What statements have thrown, and the machine behind them.
pub record Executed (S A : Type 0) : Type 0 where
  pub errors : List (Option SqliteError)
  pub machine : Machine S A

abbrev pub change_fields : {F : Type 0} → (F → F) → Held F → Held F
change_fields f t = record t { fields = f t.fields }

abbrev pub mutate_held :
    {F A : Type 0} → (F → A → A) → Option (Held F) → RowObjects A → RowObjects A
mutate_held g none w = w
mutate_held g (some t) w = mutate_rows (g t.fields) t.rows w

module _ {F I V A : Type 0} where
  -- What a statement does but for the `Row` objects, where `n` is the next address.
  abbrev pub command_of : ℕ → Statement F I V A → Command (Held F) I V
  command_of n (statement made k) = k (addresses n made)
  command_of n (alter_table name f g) = change_table name (change_fields f)

  -- What it does to the `Row` objects; `held` is how a table is found.
  abbrev pub rows_after : (Text → Option (Held F)) → Statement F I V A → RowObjects A → RowObjects A
  rows_after held (statement made k) w = add_rows made w
  rows_after held (alter_table name f g) w = mutate_held g (held name) w

module _ {F I V A S : Type 0} (step_of : Command (Held F) I V → S → Result S)
    (held : Text → S → Option (Held F)) where
  abbrev pub execute : Statement F I V A → Machine S A → Machine S A
  execute s m = record {
    state = after m.state (step_of (command_of m.rows.next s) m.state);
    rows = rows_after (λ name. held name m.state) s m.rows;
  }

  -- Statements one after the other. One that throws leaves `Row` objects that no table holds.
  unfoldable pub run_statements : List (Statement F I V A) → Machine S A → Executed S A
  unfolding add_rows mutate_rows
  run_statements [] m = record { errors = []; machine = m }
  run_statements (s ∷ ss) m =
      let rest = run_statements ss (execute s m) in
      record rest { errors = thrown (step_of (command_of m.rows.next s) m.state) ∷ rest.errors }

module _ {F I V : Type 0} where
  -- The table that a manager's state has under a name, and that a plain database has.
  unfoldable pub held_by : Text → Manager (Held F) I V → Option (Held F)
  unfolding lookup
  held_by name m = elim (lookup (to_lower name) m.store.state.tables) [
    | none ↦ none
    | some r ↦ some (m.store.objects.tables.at r).content
  ]

  unfoldable pub held_in : Text → Database (Held F) I V → Option (Held F)
  unfolding lookup
  held_in name d = elim (lookup (to_lower name) d.contents.tables) [
    | none ↦ none
    | some s ↦ some s.1
  ]

module _ {F I V A : Type 0} where
  -- Statements on the manager over shared objects, and on the plain database.
  abbrev pub run_manager :
      List (Statement F I V A)
      → Machine (Manager (Held F) I V) A
      → Executed (Manager (Held F) I V) A
  run_manager = run_statements step held_by

  abbrev pub run_database :
      List (Statement F I V A)
      → Machine (Database (Held F) I V) A
      → Executed (Database (Held F) I V) A
  run_database = run_statements spec_step held_in
