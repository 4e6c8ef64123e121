-- ===== src/Transactions/Spec.antt =====
-- What transactions mean: a database is a plain value, and a transaction and a savepoint each keep
-- the value to return to. Nothing is shared, frozen or copied here.
use sqlite_mem.Prelude.{
  ℕ, suc, ◌+◌, Text, codes, to_lower, Bool, true, false, ◌&&◌, Option, none, some, List, [], ◌∷◌,
  ◌++◌, take, get_elem?, if◌then◌else◌,
}
use sqlite_mem.Prelude.Int.{ℤ}
use sqlite_mem.Errors.{Result, ok, err, sqlite_error, no_such_table, other}
use sqlite_mem.Runtime.Prng.{next_state}
use sqlite_mem.Storage.Cow.Maps.{Map}
use sqlite_mem.Storage.Cow.Views.{Shown}
use sqlite_mem.Storage.Cow.Writes.{modify}
use sqlite_mem.Transactions.{
  Savepoint, transaction_error, no_such_savepoint, is_empty, find_savepoint, Command, begin_stmt,
  commit_stmt, rollback_stmt, rollback_to_stmt, savepoint_stmt, release_stmt, change_table,
  change_index, change_values, count_changes, draw,
}

-- The tables, the indexes and the rest, as values: what a rollback returns to.
pub record Contents (T I V : Type 0) : Type 0 where
  pub tables : Map (Shown T)
  pub indexes : Map (Shown I)
  pub values : V

-- `last_insert_rowid()`, `changes()` and `total_changes()`: a rollback keeps them.
pub record Counters : Type 0 where
  pub last_insert_rowid : ℤ
  pub changes : ℕ
  pub total_changes : ℕ

-- What a transaction returns to.
pub record Base (T I V : Type 0) : Type 0 where
  pub contents : Contents T I V
  pub prng : ℕ

pub record Database (T I V : Type 0) : Type 0 where
  pub contents : Contents T I V
  pub counters : Counters
  pub prng : ℕ
  pub base : Option (Base T I V)
  pub points : List (Savepoint (Contents T I V))
  pub by_savepoint : Bool

-- A write to a value in a map, by name.
abbrev pub change_entry :
    {C B : Type 0} → Text → (C → C) → Map (Shown C) → Result B → (Map (Shown C) → B) → Result B
change_entry name f m missing k = elim (modify (to_lower name) f m) [
  | none ↦ missing
  | some m' ↦ ok (k m')
]

module _ {T I V : Type 0} where
  -- No transaction.
  abbrev pub idle : Database T I V → Database T I V
  idle d = record d { base = none; points = []; by_savepoint = false }

  abbrev pub opened : Bool → List (Savepoint (Contents T I V)) → Database T I V → Database T I V
  opened b ps d = record d {
    base = some (record { contents = d.contents; prng = d.prng });
    points = ps;
    by_savepoint = b;
  }

  abbrev pub inside : Text → Database T I V → Result (Database T I V) → Result (Database T I V)
  inside message d r = elim d.base [ none ↦ err (transaction_error message) | some b ↦ r ]

  unfoldable pub spec_begin : Database T I V → Result (Database T I V)
  spec_begin d = elim d.base [
    | none ↦ ok (opened false [] d)
    | some b ↦ err (transaction_error (codes "cannot start a transaction within a transaction"))
  ]

  unfoldable pub spec_rollback : Database T I V → Result (Database T I V)
  spec_rollback d = elim d.base [
    | none ↦ err (transaction_error (codes "cannot rollback - no transaction is active"))
    | some b ↦ ok (idle (record d { contents = b.contents; prng = b.prng }))
  ]

  -- The contents of the last savepoint of that name, which stays, as those before it do.
  unfoldable pub spec_rollback_to : Text → Database T I V → Result (Database T I V)
  unfolding find_savepoint
  spec_rollback_to name d =
      inside (codes "cannot rollback - no transaction is active") d
        (elim (find_savepoint name d.points) [
          | none ↦ err (no_such_savepoint name)
          | some index ↦ elim (get_elem? d.points index) [
            | none ↦ err (no_such_savepoint name)
            | some p ↦ ok (record d {
              contents = p.state;
              prng = p.prng_state;
              points = take (suc index) d.points;
            })
          ]
        ])

  unfoldable pub spec_savepoint : Text → Database T I V → Database T I V
  spec_savepoint name d =
      let p : Savepoint (Contents T I V) = record {
        name = name;
        state = d.contents;
        prng_state = d.prng;
      } in
      elim d.base [
        | none ↦ opened true (d.points ++ (p ∷ [])) d
        | some b ↦ record d { points = d.points ++ (p ∷ []) }
      ]

  -- The savepoint and those after it go, and the transaction that it opened ends.
  unfoldable pub spec_release : Text → Database T I V → Result (Database T I V)
  unfolding find_savepoint
  spec_release name d =
      inside (codes "cannot release savepoint - no transaction is active") d
        (elim (find_savepoint name d.points) [
          | none ↦ err (no_such_savepoint name)
          | some index ↦
              let kept = take index d.points in
              if d.by_savepoint && is_empty kept
              then ok (idle d)
              else ok (record d { points = kept })
        ])

  unfoldable pub spec_step : Command T I V → Database T I V → Result (Database T I V)
  unfolding spec_begin spec_rollback spec_rollback_to spec_savepoint spec_release next_state
  spec_step begin_stmt d = spec_begin d
  spec_step commit_stmt d =
      inside (codes "cannot commit - no transaction is active") d (ok (idle d))
  spec_step rollback_stmt d = spec_rollback d
  spec_step (rollback_to_stmt name) d = spec_rollback_to name d
  spec_step (savepoint_stmt name) d = ok (spec_savepoint name d)
  spec_step (release_stmt name) d = spec_release name d
  spec_step (change_table name f) d =
      change_entry name f d.contents.tables
        (err (sqlite_error (codes "no such table: " ++ name) no_such_table))
        (λ m. record d { contents = record d.contents { tables = m } })
  spec_step (change_index name f) d =
      change_entry name f d.contents.indexes
        (err (sqlite_error (codes "no such index: " ++ name) other))
        (λ m. record d { contents = record d.contents { indexes = m } })
  spec_step (change_values f) d =
      ok (record d { contents = record d.contents { values = f d.contents.values } })
  spec_step (count_changes n r) d = ok (record d {
    counters = record {
      last_insert_rowid = elim r [ none ↦ d.counters.last_insert_rowid | some i ↦ i ];
      changes = n;
      total_changes = d.counters.total_changes + n;
    };
  })
  spec_step draw d = ok (record d { prng = next_state d.prng })
