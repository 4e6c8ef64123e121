-- ===== src/Transactions/Savepoints.antt =====
-- SAVEPOINT refines its meaning.
use sqlite_mem.Prelude.{Text, true, Option, [], ◌∷◌, ◌++◌, ◌≡◌, refl, ap, inl, inr, Option-cases}
use sqlite_mem.Errors.{ok}
use sqlite_mem.Storage.State.{DatabaseState, mark_shared}
use sqlite_mem.Transactions.{Savepoint, Manager, open_snapshot, savepoint, is_some, in_transaction}
use sqlite_mem.Transactions.Spec.{Base, Database, opened, spec_savepoint}
use sqlite_mem.Transactions.Abstraction.{
  Saved, Inv, database_of, BaseSaved-KeepsSaved, base_of-KeepsSaved, PointsSaved-KeepsSaved,
  points_of-KeepsSaved,
}
use sqlite_mem.Transactions.Shared.{
  Owns-mark_shared, contents_of-mark_shared, KeepsSaved-freeze, Saved-freeze,
}
use sqlite_mem.Transactions.Points.{append-points_of, PointsSaved-append}
use sqlite_mem.Transactions.Control.{Refines, BaseSaved-cases}

module _ {T I V : Type 0} where
  -- The savepoint that is taken holds the state as it is.
  added-Refines :
      (name : Text) (m : Manager T I V) (d : Database T I V)
      → Refines (ok m) (ok d)
      → Saved m.store.objects m.store.state
      → Refines
          (ok (record m {
            savepoints =
                m.savepoints
                ++ (record { name = name; state = m.store.state; prng_state = m.prng } ∷ []);
          }))
          (ok (record d {
            points =
                d.points ++ (record { name = name; state = d.contents; prng_state = d.prng } ∷ []);
          }))
  added-Refines name m d (v, e) s =
      let p : Savepoint (DatabaseState V) = record {
        name = name;
        state = m.store.state;
        prng_state = m.prng;
      } in
      (
        record {
          live = v.live;
          random = v.random;
          base = v.base;
          points = PointsSaved-append m.store.objects m.savepoints p v.points (s, v.random);
        },
        rw (append-points_of m.store.objects m.savepoints p) (
            ap {A = Database T I V}
              (λ u. record u {
                points =
                    u.points
                    ++ (record { name = name; state = u.contents; prng_state = u.prng } ∷ []);
              })
              e),
      )

  -- Freezing changes nothing that is saved or shown.
  frozen-Refines :
      (m : Manager T I V)
      → Inv m
      → Refines (ok (record m { store = mark_shared true m.store })) (ok (database_of m))
  frozen-Refines m v =
      let keeps = KeepsSaved-freeze m.store in
      (
        record {
          live = Owns-mark_shared m.store true m.store.state v.live;
          random = v.random;
          base = BaseSaved-KeepsSaved keeps _ _ v.base;
          points = PointsSaved-KeepsSaved keeps m.savepoints v.points;
        },
        rw
            (
              contents_of-mark_shared m.store true m.store.state,
              base_of-KeepsSaved keeps _ _ v.base,
              points_of-KeepsSaved keeps m.savepoints v.points,
            )
            refl,
      )

  -- A transaction that a savepoint opens.
  opened-Refines :
      (m : Manager T I V)
      → Inv m
      → Refines
          (ok (record (open_snapshot m) { started_by_savepoint = true }))
          (ok (opened true (database_of m).points (database_of m)))
  opened-Refines m v =
      let (w, e) = frozen-Refines m v in
      (
        record {
          live = w.live;
          random = v.random;
          base = (Saved-freeze m.store v.live, v.random);
          points = w.points;
        },
        rw
            (
              contents_of-mark_shared m.store true m.store.state,
              points_of-KeepsSaved (KeepsSaved-freeze m.store) m.savepoints v.points,
            )
            refl,
      )

  Refines-eq :
      {m m' : Manager T I V} {d d' : Database T I V}
      → m ≡ m'
      → d ≡ d'
      → Refines (ok m') (ok d')
      → Refines (ok m) (ok d)
  Refines-eq p q r = rw (p, q) r

  -- Inside a transaction, a savepoint freezes and is added.
  savepoint_open :
      (name : Text) (m : Manager T I V)
      → in_transaction m ≡ true
      → savepoint name m ≡ record m {
        store = mark_shared true m.store;
        savepoints =
            m.savepoints
            ++ (record { name = name; state = m.store.state; prng_state = m.prng } ∷ []);
      }
  unfolding savepoint
  savepoint_open name m e = rw (e, savepoint) refl

  spec_savepoint_open :
      (name : Text) (d : Database T I V)
      → is_some d.base ≡ true
      → spec_savepoint name d ≡ record d {
        points = d.points ++ (record { name = name; state = d.contents; prng_state = d.prng } ∷ []);
      }
  unfolding spec_savepoint
  spec_savepoint_open name d e = elim (Option-cases d.base) [
    | inl no_base ↦ cc (rw no_base at e)
    | inr (b, base) ↦
        rw (base, spec_savepoint)
          (ap {A = Option (Base T I V)}
            (λ u. record d {
              base = u;
              points =
                  d.points
                  ++ (record { name = name; state = d.contents; prng_state = d.prng } ∷ []);
            })
            base)
  ]

  pub savepoint-Refines :
      (name : Text) (m : Manager T I V)
      → Inv m
      → Refines (ok (savepoint name m)) (ok (spec_savepoint name (database_of m)))
  unfolding savepoint spec_savepoint
  savepoint-Refines name m v = elim (BaseSaved-cases _ _ _ v.base) [
    | inl (none_saved, no_state) ↦
        rw (none_saved, savepoint, spec_savepoint)
          (added-Refines name (record (open_snapshot m) { started_by_savepoint = true })
            (opened true (database_of m).points (database_of m)) (opened-Refines m v)
            (Saved-freeze m.store v.live))
    | inr (e, q, snapshot, state, s, l) ↦
        Refines-eq (savepoint_open name m (rw snapshot refl))
          (spec_savepoint_open name (database_of m) (rw (snapshot, state) refl))
          (added-Refines name (record m { store = mark_shared true m.store }) (database_of m)
            (frozen-Refines m v) (Saved-freeze m.store v.live))
  ]
