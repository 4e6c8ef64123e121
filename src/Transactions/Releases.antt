-- ===== src/Transactions/Releases.antt =====
-- RELEASE refines its meaning.
use sqlite_mem.Prelude.{
  ℕ, Text, ◌&&◌, List, [], ◌∷◌, ◌≡◌, refl, sym, inl, inr, take, if◌then◌else◌, Bool-cases,
  Option-cases,
}
use sqlite_mem.Errors.{ok}
use sqlite_mem.Storage.State.{DatabaseState, Objects}
use sqlite_mem.Transactions.{Savepoint, Manager, find_savepoint, closed, release, is_empty}
use sqlite_mem.Transactions.Spec.{idle, spec_release}
use sqlite_mem.Transactions.Abstraction.{Inv, points_of, database_of}
use sqlite_mem.Transactions.Points.{find_savepoint-points_of, take-points_of, PointsSaved-take}
use sqlite_mem.Transactions.Control.{Refines, inside-Refines, closed-Refines}

module _ {T I V : Type 0} where
  is_empty-points_of :
      (o : Objects T I) (ss : List (Savepoint (DatabaseState V)))
      → is_empty (points_of o ss) ≡ is_empty ss
  is_empty-points_of o [] = refl
  is_empty-points_of o (s ∷ ss) = refl

  release-Refines_open :
      (i : ℕ) (m : Manager T I V)
      → Inv m
      → Refines
          (let kept = take i m.savepoints in
            if m.started_by_savepoint && is_empty kept
            then ok (closed m)
            else ok (record m { savepoints = kept }))
          (let kept = take i (database_of m).points in
            if m.started_by_savepoint && is_empty kept
            then ok (idle (database_of m))
            else ok (record (database_of m) { points = kept }))
  release-Refines_open i m v =
      let kept = take i m.savepoints in
      rw
        (
          sym (take-points_of m.store.objects i m.savepoints),
          is_empty-points_of m.store.objects kept,
        )
        (elim (Bool-cases (m.started_by_savepoint && is_empty kept)) [
          | inl ends ↦ rw ends (closed-Refines m v.live v.random)
          | inr stays ↦ rw stays (
            record {
              live = v.live;
              random = v.random;
              base = v.base;
              points = PointsSaved-take m.store.objects i m.savepoints v.points;
            },
            refl,
          )
        ])

  pub release-Refines :
      (name : Text) (m : Manager T I V)
      → Inv m
      → Refines (release name m) (spec_release name (database_of m))
  unfolding release spec_release
  release-Refines name m v =
      inside-Refines _ m v _ _ (elim (Option-cases (find_savepoint name m.savepoints)) [
        | inl missing ↦
            rw (missing, find_savepoint-points_of m.store.objects name m.savepoints, missing) refl
        | inr (i, found) ↦
            rw (found, find_savepoint-points_of m.store.objects name m.savepoints, found)
              (release-Refines_open i m v)
      ])
