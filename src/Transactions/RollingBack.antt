-- ===== src/Transactions/RollingBack.antt =====
-- ROLLBACK TO refines its meaning.
use sqlite_mem.Prelude.{
  ℕ, suc, Text, none, some, ◌≡◌, refl, inl, inr, take, get_elem?, Option-cases,
}
use sqlite_mem.Errors.{ok, err}
use sqlite_mem.Runtime.Prng.{set_state, set_state_lem}
use sqlite_mem.Storage.State.{DatabaseState, Objects, replace_with}
use sqlite_mem.Transactions.{
  Savepoint, Manager, find_savepoint, restored, rollback_to, rollback, no_such_savepoint,
}
use sqlite_mem.Transactions.Spec.{spec_rollback_to}
use sqlite_mem.Transactions.Abstraction.{
  Inv, KeepsSaved, contents_of, points_of, database_of, BaseSaved-KeepsSaved, base_of-KeepsSaved,
  PointsSaved-KeepsSaved, points_of-KeepsSaved,
}
use sqlite_mem.Transactions.Shared.{
  KeepsSaved-replace_with, Owns-replace_with, contents_of-replace_with,
}
use sqlite_mem.Transactions.Points.{
  find_savepoint-points_of, get_elem?-points_of, get_elem?-points_of-none, take-points_of,
  PointsSaved-take, Saved-get_elem?,
}
use sqlite_mem.Transactions.Control.{Refines, inside-Refines}

module _ {T I V : Type 0} where
  -- A savepoint that is found: its clone becomes the state.
  restored-Refines :
      (m : Manager T I V) (i : ℕ) (s : Savepoint (DatabaseState V))
      → Inv m
      → get_elem? m.savepoints i ≡ some s
      → Refines
          (ok (record m {
            store = restored m (replace_with s.state m.store);
            prng = set_state s.prng_state;
            savepoints = take (suc i) m.savepoints;
          }))
          (ok (record (database_of m) {
            contents = contents_of m.store.objects s.state;
            prng = s.prng_state;
            points = take (suc i) (points_of m.store.objects m.savepoints);
          }))
  restored-Refines m i s v e =
      let (saved, l) = Saved-get_elem? m.store.objects m.savepoints i s v.points e in
      let o' : Objects T I = (replace_with s.state m.store).objects in
      let keeps : KeepsSaved m.store.objects o' = KeepsSaved-replace_with m.store s.state in
      let owns = Owns-replace_with m.store s.state saved.owns in
      rw (set_state_lem s.prng_state l) (
        record {
          live = record { tables = owns.tables; indexes = owns.indexes };
          random = l;
          base = BaseSaved-KeepsSaved keeps _ _ v.base;
          points =
              PointsSaved-take o' (suc i) m.savepoints
                (PointsSaved-KeepsSaved keeps m.savepoints v.points);
        },
        rw
            (
              contents_of-replace_with m.store s.state saved.owns,
              base_of-KeepsSaved keeps _ _ v.base,
              take-points_of o' (suc i) m.savepoints,
              points_of-KeepsSaved keeps m.savepoints v.points,
            )
            refl,
      )

  -- The search has the same outcome on the savepoints as values.
  rollback_to-Refines_open :
      (name : Text) (m : Manager T I V)
      → Inv m
      → Refines (rollback_to name m) (elim (find_savepoint name (database_of m).points) [
        | none ↦ err (no_such_savepoint name)
        | some index ↦ elim (get_elem? (database_of m).points index) [
          | none ↦ err (no_such_savepoint name)
          | some p ↦ ok (record (database_of m) {
            contents = p.state;
            prng = p.prng_state;
            points = take (suc index) (database_of m).points;
          })
        ]
      ])
  unfolding rollback_to
  rollback_to-Refines_open name m v =
      let o : Objects T I = m.store.objects in
      elim (Option-cases (find_savepoint name m.savepoints)) [
        | inl missing ↦
            rw (missing, find_savepoint-points_of o name m.savepoints, missing, rollback_to) refl
        | inr (i, found) ↦ elim (Option-cases (get_elem? m.savepoints i)) [
          | inl out ↦
              rw
                (
                  found,
                  find_savepoint-points_of o name m.savepoints,
                  found,
                  out,
                  rollback_to,
                  get_elem?-points_of-none o m.savepoints i out,
                )
                refl
          | inr (s, here) ↦
              rw
                (
                  found,
                  find_savepoint-points_of o name m.savepoints,
                  found,
                  here,
                  rollback_to,
                  get_elem?-points_of o m.savepoints i s here,
                )
                (restored-Refines m i s v here)
        ]
      ]

  pub rollback_to-Refines :
      (name : Text) (m : Manager T I V)
      → Inv m
      → Refines (rollback (some name) m) (spec_rollback_to name (database_of m))
  unfolding rollback spec_rollback_to
  rollback_to-Refines name m v = inside-Refines _ m v _ _ (rollback_to-Refines_open name m v)
