-- ===== src/Api.antt =====
-- api/snapshot.ts: taking a snapshot of a database, and opening one.
pub mod Thawing
mod Runs
use sqlite_mem.Prelude.{ℕ, true}
use sqlite_mem.Runtime.Prng.{set_state}
use sqlite_mem.Storage.State.{DatabaseState, Objects, mark_shared, clone_shallow}
use sqlite_mem.Transactions.{Manager, new_manager}

-- `Snapshot`: its state and its generator. The clock, the seed and the encoded bytes are left out.
pub record Snapshot (V : Type 0) : Type 0 where
  pub state : DatabaseState V
  pub prng_state : ℕ

-- The snapshot that is taken, and the database that it was taken of.
pub record Captured (T I V : Type 0) : Type 0 where
  pub manager : Manager T I V
  pub snapshot : Snapshot V

module _ {T I V : Type 0} where
  -- `captureSnapshot`
  abbrev pub capture_snapshot : Manager T I V → Captured T I V
  capture_snapshot m =
      let s = mark_shared true m.store in
      record {
        manager = record m { store = s };
        snapshot = record { state = clone_shallow s; prng_state = m.prng };
      }

  -- `openSnapshot` of a deterministic snapshot that was captured live: a new database, over the
  -- same objects.
  unfoldable pub open_snapshot : Snapshot V → Objects T I → Manager T I V
  unfolding set_state
  open_snapshot s o = new_manager (record { objects = o; state = s.state }) (set_state s.prng_state)
