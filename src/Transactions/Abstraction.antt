-- ===== src/Transactions/Abstraction.antt =====
-- The plain database that a manager stands for, and the invariant under which it does.
use sqlite_mem.Prelude.{ℕ, ◌<◌, ◌^◌, true, false, Option, none, some, List, [], ◌∷◌, ◌≡◌, refl}
use sqlite_mem.Storage.Cow.Views.{view, Frozen}
use sqlite_mem.Storage.Cow.Owned.{IsOwned}
use sqlite_mem.Storage.Cow.Writes.{Keeps}
use sqlite_mem.Storage.State.{DatabaseState, Objects}
use sqlite_mem.Transactions.{Savepoint, Manager}
use sqlite_mem.Transactions.Spec.{Contents, Counters, Base, Database}

abbrev pub counters_of : {V : Type 0} → DatabaseState V → Counters
counters_of d = record {
  last_insert_rowid = d.last_insert_rowid;
  changes = d.changes;
  total_changes = d.total_changes;
}

-- A change of the objects that no saved state shows.
pub record KeepsSaved {T I : Type 0} (o o' : Objects T I) : Type 0 where
  pub tables : Keeps o.tables o'.tables
  pub indexes : Keeps o.indexes o'.indexes

module _ {T I V : Type 0} where
  -- What a state shows over the objects.
  abbrev pub contents_of : Objects T I → DatabaseState V → Contents T I V
  contents_of o d = record {
    tables = view o.tables d.tables;
    indexes = view o.indexes d.indexes;
    values = d.values;
  }

  abbrev pub base_of : Objects T I → Option (DatabaseState V) → Option ℕ → Option (Base T I V)
  base_of o none p = none
  base_of o (some d) none = none
  base_of o (some d) (some p) = some (record { contents = contents_of o d; prng = p })

  abbrev pub point_of : Objects T I → Savepoint (DatabaseState V) → Savepoint (Contents T I V)
  point_of o s = record { name = s.name; state = contents_of o s.state; prng_state = s.prng_state }

  abbrev pub points_of :
      Objects T I → List (Savepoint (DatabaseState V)) → List (Savepoint (Contents T I V))
  points_of o [] = []
  points_of o (s ∷ ss) = point_of o s ∷ points_of o ss

  abbrev pub database_of : Manager T I V → Database T I V
  database_of m = record {
    contents = contents_of m.store.objects m.store.state;
    counters = counters_of m.store.state;
    prng = m.prng;
    base = base_of m.store.objects m.transaction_snapshot m.transaction_prng_state;
    points = points_of m.store.objects m.savepoints;
    by_savepoint = m.started_by_savepoint;
  }

  -- A state whose maps are well formed.
  pub record Owns (o : Objects T I) (d : DatabaseState V) : Type 0 where
    pub tables : IsOwned o.tables d.tables
    pub indexes : IsOwned o.indexes d.indexes

  -- A saved state: all of its objects are frozen too.
  pub record Saved (o : Objects T I) (d : DatabaseState V) : Type 0 where
    pub owns : Owns o d
    pub tables : Frozen o.tables d.tables
    pub indexes : Frozen o.indexes d.indexes

  abbrev pub BaseSaved : Objects T I → Option (DatabaseState V) → Option ℕ → Type 0
  BaseSaved o none none = Unit
  BaseSaved o none (some p) = false ≡ true
  BaseSaved o (some d) none = false ≡ true
  BaseSaved o (some d) (some p) = Saved o d × (p < 2 ^ 64)

  abbrev pub PointsSaved : Objects T I → List (Savepoint (DatabaseState V)) → Type 0
  PointsSaved o [] = Unit
  PointsSaved o (s ∷ ss) = (Saved o s.state × (s.prng_state < 2 ^ 64)) × PointsSaved o ss

  -- The manager's invariant.
  pub record Inv (m : Manager T I V) : Type 0 where
    pub live : Owns m.store.objects m.store.state
    pub random : m.prng < 2 ^ 64
    pub base : BaseSaved m.store.objects m.transaction_snapshot m.transaction_prng_state
    pub points : PointsSaved m.store.objects m.savepoints

  module _ {o o' : Objects T I} (k : KeepsSaved o o') where
    pub Saved-KeepsSaved : (d : DatabaseState V) → Saved o d → Saved o' d
    Saved-KeepsSaved d s = record {
      owns = record {
        tables = k.tables.owned d.tables s.owns.tables s.tables;
        indexes = k.indexes.owned d.indexes s.owns.indexes s.indexes;
      };
      tables = k.tables.frozen d.tables s.owns.tables s.tables;
      indexes = k.indexes.frozen d.indexes s.owns.indexes s.indexes;
    }

    pub contents_of-KeepsSaved :
        (d : DatabaseState V) → Saved o d → contents_of o' d ≡ contents_of o d
    contents_of-KeepsSaved d s =
        rw
          (
            k.tables.same d.tables s.owns.tables s.tables,
            k.indexes.same d.indexes s.owns.indexes s.indexes,
          )
          refl

    pub BaseSaved-KeepsSaved :
        (d : Option (DatabaseState V)) (p : Option ℕ) → BaseSaved o d p → BaseSaved o' d p
    BaseSaved-KeepsSaved none none b = tt
    BaseSaved-KeepsSaved none (some p) b = b
    BaseSaved-KeepsSaved (some d) none b = b
    BaseSaved-KeepsSaved (some d) (some p) (s, l) = (Saved-KeepsSaved d s, l)

    pub base_of-KeepsSaved :
        (d : Option (DatabaseState V)) (p : Option ℕ)
        → BaseSaved o d p
        → base_of o' d p ≡ base_of o d p
    base_of-KeepsSaved none p b = refl
    base_of-KeepsSaved (some d) none b = refl
    base_of-KeepsSaved (some d) (some p) (s, l) = rw (contents_of-KeepsSaved d s) refl

    pub PointsSaved-KeepsSaved :
        (ss : List (Savepoint (DatabaseState V))) → PointsSaved o ss → PointsSaved o' ss
    PointsSaved-KeepsSaved [] b = tt
    PointsSaved-KeepsSaved (x ∷ ss) ((s, l), b) =
        ((Saved-KeepsSaved x.state s, l), PointsSaved-KeepsSaved ss b)

    pub points_of-KeepsSaved :
        (ss : List (Savepoint (DatabaseState V)))
        → PointsSaved o ss
        → points_of o' ss ≡ points_of o ss
    points_of-KeepsSaved [] b = refl
    points_of-KeepsSaved (x ∷ ss) ((s, l), b) =
        rw (contents_of-KeepsSaved x.state s, points_of-KeepsSaved ss b) refl
