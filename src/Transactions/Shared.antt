-- ===== src/Transactions/Shared.antt =====
-- Freezing, thawing and cloning the objects of a whole state.
use sqlite_mem.Prelude.{Bool, true, ◌≡◌, refl}
use sqlite_mem.Storage.Cow.Marking.{
  IsOwned-mark, Frozen-mark_self, Grows-clone_all, view-clone_all, IsOwned-clone_all,
}
use sqlite_mem.Storage.Cow.Views.{view-mark}
use sqlite_mem.Storage.Cow.Writes.{Keeps-freeze, Keeps-Grows}
use sqlite_mem.Storage.State.{DatabaseState, Store, mark_shared, replace_with}
use sqlite_mem.Transactions.Abstraction.{Owns, Saved, KeepsSaved, contents_of}

module _ {T I V : Type 0} (s : Store T I V) where
  pub Owns-mark_shared :
      (b : Bool) (d : DatabaseState V) → Owns s.objects d → Owns (mark_shared b s).objects d
  Owns-mark_shared b d o = record {
    tables = IsOwned-mark b s.objects.tables s.state.tables d.tables o.tables;
    indexes = IsOwned-mark b s.objects.indexes s.state.indexes d.indexes o.indexes;
  }

  pub contents_of-mark_shared :
      (b : Bool) (d : DatabaseState V)
      → contents_of (mark_shared b s).objects d ≡ contents_of s.objects d
  contents_of-mark_shared b d =
      rw
        (
          view-mark b s.objects.tables s.state.tables d.tables,
          view-mark b s.objects.indexes s.state.indexes d.indexes,
        )
        refl

  pub KeepsSaved-freeze : KeepsSaved s.objects (mark_shared true s).objects
  KeepsSaved-freeze = record {
    tables = Keeps-freeze s.objects.tables s.state.tables;
    indexes = Keeps-freeze s.objects.indexes s.state.indexes;
  }

  pub Saved-freeze : Owns s.objects s.state → Saved (mark_shared true s).objects s.state
  Saved-freeze o = record {
    owns = Owns-mark_shared true s.state o;
    tables = Frozen-mark_self s.objects.tables s.state.tables;
    indexes = Frozen-mark_self s.objects.indexes s.state.indexes;
  }

  module _ (d : DatabaseState V) where
    pub KeepsSaved-replace_with : KeepsSaved s.objects (replace_with d s).objects
    KeepsSaved-replace_with = record {
      tables = Keeps-Grows (Grows-clone_all s.objects.tables d.tables);
      indexes = Keeps-Grows (Grows-clone_all s.objects.indexes d.indexes);
    }

    pub Owns-replace_with :
        Owns s.objects d → Owns (replace_with d s).objects (replace_with d s).state
    Owns-replace_with o = record {
      tables = IsOwned-clone_all s.objects.tables d.tables o.tables;
      indexes = IsOwned-clone_all s.objects.indexes d.indexes o.indexes;
    }

    pub contents_of-replace_with :
        Owns s.objects d
        → contents_of (replace_with d s).objects (replace_with d s).state ≡ contents_of s.objects d
    contents_of-replace_with o =
        rw
          (
            view-clone_all s.objects.tables d.tables o.tables.below,
            view-clone_all s.objects.indexes d.indexes o.indexes.below,
          )
          refl
