-- ===== src/Transactions.antt =====
-- transactions/manager.ts: `TransactionManager`, with the state and the generator that it refers to.
pub mod Spec
pub mod Abstraction
pub mod Shared
mod Points
pub mod Control
mod RollingBack
mod Savepoints
mod Releases
pub mod Statements
pub mod Refinement
pub mod Unwinding
mod Returns
pub mod Laws
pub mod RowObjects
mod Runs
use sqlite_mem.Prelude.{
  ℕ, suc, Text, codes, to_lower, text_eq, Bool, true, false, ◌&&◌, Option, none, some, List, [],
  ◌∷◌, ◌++◌, take, get_elem?, if◌then◌else◌,
}
use sqlite_mem.Prelude.Int.{ℤ}
use sqlite_mem.Errors.{SqliteError, transaction, Result, ok, err, ◌>>=◌}
use sqlite_mem.Runtime.Prng.{set_state, next_state}
use sqlite_mem.Storage.State.{
  DatabaseState, Store, mark_shared, clone_shallow, replace_with, adopt, with_counters,
  record_change, write_table, write_index,
}

-- `SavepointSnapshot`, over the states that are saved.
pub record Savepoint (D : Type 0) : Type 0 where
  pub name : Text
  pub state : D
  pub prng_state : ℕ

pub record Manager (T I V : Type 0) : Type 0 where
  pub store : Store T I V
  pub prng : ℕ
  pub transaction_snapshot : Option (DatabaseState V)
  pub transaction_prng_state : Option ℕ
  pub savepoints : List (Savepoint (DatabaseState V))
  pub started_by_savepoint : Bool

abbrev pub transaction_error : Text → SqliteError
transaction_error m = record { message = m; category = transaction; sqlite_code = "SQLITE_ERROR" }

abbrev pub no_such_savepoint : Text → SqliteError
no_such_savepoint name = transaction_error (codes "no such savepoint: " ++ name)

abbrev pub is_some : {A : Type 0} → Option A → Bool
is_some none = false
is_some (some a) = true

abbrev pub is_empty : {A : Type 0} → List A → Bool
is_empty [] = true
is_empty (x ∷ xs) = false

-- `findSavepoint`: the index of the last savepoint of that name, whatever the case of its letters.
unfoldable pub find_savepoint : {D : Type 0} → Text → List (Savepoint D) → Option ℕ
find_savepoint name [] = none
find_savepoint name (s ∷ ss) = elim (find_savepoint name ss) [
  | some i ↦ some (suc i)
  | none ↦ if text_eq (to_lower s.name) (to_lower name) then some 0 else none
]

-- `requireTransaction`
abbrev pub require_transaction : {A B : Type 0} → Text → Option A → Result B → Result B
require_transaction message none r = err (transaction_error message)
require_transaction message (some a) r = r

module _ {T I V : Type 0} where
  -- The constructor.
  abbrev pub new_manager : Store T I V → ℕ → Manager T I V
  new_manager s p = record {
    store = s;
    prng = p;
    transaction_snapshot = none;
    transaction_prng_state = none;
    savepoints = [];
    started_by_savepoint = false;
  }

  -- `inTransaction`
  abbrev pub in_transaction : Manager T I V → Bool
  in_transaction m = is_some m.transaction_snapshot

  -- Freezes, and takes the transaction's snapshot.
  abbrev pub open_snapshot : Manager T I V → Manager T I V
  open_snapshot m =
      let s = mark_shared true m.store in
      record m {
        store = s;
        transaction_snapshot = some (clone_shallow s);
        transaction_prng_state = some m.prng;
      }

  unfoldable pub begin : Manager T I V → Result (Manager T I V)
  begin m =
      if in_transaction m
      then err (transaction_error (codes "cannot start a transaction within a transaction"))
      else ok (record (open_snapshot m) { savepoints = []; started_by_savepoint = false })

  -- What `commit` and `rollback` end with: no transaction, and thawed objects.
  abbrev pub closed : Manager T I V → Manager T I V
  closed m = new_manager (mark_shared false m.store) m.prng

  unfoldable pub commit : Manager T I V → Result (Manager T I V)
  commit m =
      require_transaction (codes "cannot commit - no transaction is active") m.transaction_snapshot
        (ok (closed m))

  -- The counters that were live are put back after the state has been replaced.
  abbrev pub restored : Manager T I V → Store T I V → Store T I V
  restored m s = record s { state = with_counters m.store.state s.state }

  -- `rollback(savepoint)`, inside a transaction.
  unfoldable pub rollback_to : Text → Manager T I V → Result (Manager T I V)
  unfolding find_savepoint set_state
  rollback_to name m = elim (find_savepoint name m.savepoints) [
    | none ↦ err (no_such_savepoint name)
    | some index ↦ elim (get_elem? m.savepoints index) [
      | none ↦ err (no_such_savepoint name)
      | some snapshot ↦ ok (record m {
        store = restored m (replace_with snapshot.state m.store);
        prng = set_state snapshot.prng_state;
        savepoints = take (suc index) m.savepoints;
      })
    ]
  ]

  -- `rollback()`, inside a transaction.
  unfoldable pub rollback_all : Manager T I V → Result (Manager T I V)
  unfolding set_state
  rollback_all m = elim m.transaction_snapshot [
    | none ↦ err (transaction_error (codes "cannot rollback - no transaction is active"))
    | some snapshot ↦ elim m.transaction_prng_state [
      | none ↦ err (transaction_error (codes "cannot rollback - no transaction is active"))
      | some p ↦
          ok (closed (record m { store = restored m (adopt snapshot m.store); prng = set_state p }))
    ]
  ]

  unfoldable pub rollback : Option Text → Manager T I V → Result (Manager T I V)
  unfolding rollback_to rollback_all
  rollback savepoint m =
      require_transaction (codes "cannot rollback - no transaction is active")
        m.transaction_snapshot
        (elim savepoint [ none ↦ rollback_all m | some name ↦ rollback_to name m ])

  unfoldable pub savepoint : Text → Manager T I V → Manager T I V
  savepoint name m =
      let opened : Manager T I V =
        if in_transaction m
        then record m { store = mark_shared true m.store }
        else record (open_snapshot m) { started_by_savepoint = true } in
      let point : Savepoint (DatabaseState V) = record {
        name = name;
        state = clone_shallow opened.store;
        prng_state = opened.prng;
      } in
      record opened { savepoints = opened.savepoints ++ (point ∷ []) }

  unfoldable pub release : Text → Manager T I V → Result (Manager T I V)
  unfolding find_savepoint
  release name m =
      require_transaction (codes "cannot release savepoint - no transaction is active")
        m.transaction_snapshot
        (elim (find_savepoint name m.savepoints) [
          | none ↦ err (no_such_savepoint name)
          | some index ↦
              let kept = take index m.savepoints in
              if m.started_by_savepoint && is_empty kept
              then ok (closed m)
              else ok (record m { savepoints = kept })
        ])

-- What a client does to a database: transaction control, and what statements do to the state. A
-- command that throws leaves the manager as it was.
pub data Command (T I V : Type 0) : Type 0 where
  begin_stmt commit_stmt rollback_stmt : Command T I V
  rollback_to_stmt savepoint_stmt release_stmt : Text → Command T I V
  change_table : Text → (T → T) → Command T I V
  change_index : Text → (I → I) → Command T I V
  change_values : (V → V) → Command T I V
  count_changes : ℕ → Option ℤ → Command T I V
  draw : Command T I V

module _ {T I V : Type 0} where
  abbrev pub with_store : Manager T I V → Result (Store T I V) → Result (Manager T I V)
  with_store m r = r >>= (λ s. ok (record m { store = s }))

  unfoldable pub step : Command T I V → Manager T I V → Result (Manager T I V)
  unfolding begin commit rollback savepoint release write_table write_index record_change next_state
  step begin_stmt m = begin m
  step commit_stmt m = commit m
  step rollback_stmt m = rollback none m
  step (rollback_to_stmt name) m = rollback (some name) m
  step (savepoint_stmt name) m = ok (savepoint name m)
  step (release_stmt name) m = release name m
  step (change_table name f) m = with_store m (write_table name f m.store)
  step (change_index name f) m = with_store m (write_index name f m.store)
  step (change_values f) m =
      let d = m.store.state in
      ok (record m { store = record m.store { state = record d { values = f d.values } } })
  step (count_changes n r) m =
      ok (record m { store = record m.store { state = record_change n r m.store.state } })
  step draw m = ok (record m { prng = next_state m.prng })

-- A sequence of commands: the errors that they throw, in order, and the state behind them.
pub record Ran (S : Type 0) : Type 0 where
  pub errors : List (Option SqliteError)
  pub state : S

abbrev pub after : {S : Type 0} → S → Result S → S
after s (ok t) = t
after s (err e) = s

abbrev pub thrown : {S : Type 0} → Result S → Option SqliteError
thrown (ok t) = none
thrown (err e) = some e

module _ {C S : Type 0} (f : C → S → Result S) where
  unfoldable pub run : List C → S → Ran S
  run [] s = record { errors = []; state = s }
  run (c ∷ cs) s =
      let rest = run cs (after s (f c s)) in record rest { errors = thrown (f c s) ∷ rest.errors }
