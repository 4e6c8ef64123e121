-- ===== src/Api/Thawing.antt =====
-- What thawing at the end of a transaction does to a snapshot over the same objects.
use sqlite_mem.Prelude.{ℕ, Text, to_lower, true, false, some, List, [], ◌∷◌, ◌≡◌, refl, ◌∙◌, arith}
use mathlib.Core.Path.{subst}
use sqlite_mem.Storage.Cow.{Heap, Refs, mark, put, get_writable, ensure_writable}
use sqlite_mem.Storage.Cow.Maps.{lookup}
use sqlite_mem.Storage.Cow.Views.{view, view-mark}
use sqlite_mem.Storage.Cow.Owned.{IsOwned}
use sqlite_mem.Storage.Cow.Marking.{IsOwned-mark}
use sqlite_mem.Storage.Cow.Writes.{IsWritten, get_writable-IsWritten, modify}
use sqlite_mem.Storage.State.{write_table}
use sqlite_mem.Transactions.{
  Manager, Command, begin_stmt, commit_stmt, change_table, step, begin, commit, closed,
  open_snapshot, run, after, in_transaction,
}
use sqlite_mem.Transactions.Abstraction.{Inv, contents_of, database_of}
use sqlite_mem.Api
use sqlite_mem.Api.{capture_snapshot}

module _ {C : Type 0} where
  thawed_stays :
      (h : Heap C) (m : Refs) (q : ℕ)
      → (h.at q).frozen ≡ false
      → ((mark false h m).at q).frozen ≡ false
  unfolding mark
  thawed_stays h [] q e = e
  thawed_stays h ((k, r) ∷ m) q e =
      ground (arith, thawed_stays (put h r (record (h.at r) { frozen = false })) m q)

  thawed :
      (h : Heap C) (m : Refs) (k : Text) (r : ℕ)
      → lookup k m ≡ some r
      → ((mark false h m).at r).frozen ≡ false
  unfolding mark lookup
  thawed h [] k r e = cc
  thawed h ((j, q) ∷ m) k r e =
      let h' : Heap C = put h q (record (h.at q) { frozen = false }) in
      ground (arith, thawed h' m k r, thawed_stays h' m q)

  -- What is not frozen is written where it stands.
  get_writable_of_thawed :
      (h : Heap C) (m : Refs) (name : Text) (r : ℕ)
      → lookup (to_lower name) m ≡ some r
      → (h.at r).frozen ≡ false
      → get_writable h m name ≡ some (record { heap = h; refs = m; ref = r })
  unfolding get_writable ensure_writable
  get_writable_of_thawed h m name r e f = rw (e, get_writable, ensure_writable, f) refl

module _ {T I V : Type 0} where
  -- The manager after BEGIN and COMMIT, with no transaction before.
  abbrev begun_and_ended : Manager T I V → Manager T I V
  begun_and_ended m =
      closed (record (open_snapshot m) { savepoints = []; started_by_savepoint = false })

  run_begin_commit :
      (m : Manager T I V) (cs : List (Command T I V))
      → in_transaction m ≡ false
      → (run step (begin_stmt ∷ commit_stmt ∷ cs) m).state ≡ (run step cs (begun_and_ended m)).state
  unfolding run step begin commit
  run_begin_commit m cs e = rw (e, run, step, begin) refl

  write_shows :
      (m : Manager T I V) (name : Text) (f : T → T) (r : ℕ)
      → IsOwned m.store.objects.tables m.store.state.tables
      → lookup (to_lower name) m.store.state.tables ≡ some r
      → (m.store.objects.tables.at r).frozen ≡ false
      → modify (to_lower name) f (view m.store.objects.tables m.store.state.tables)
        ≡ some (
            view (after m (step (change_table name f) m)).store.objects.tables m.store.state.tables)
  unfolding step write_table
  write_shows m name f r o e free =
      let h = m.store.objects.tables in
      let found = get_writable_of_thawed h m.store.state.tables name r e free in
      let w : IsWritten h m.store.state.tables (to_lower name) f _ =
        get_writable-IsWritten h m.store.state.tables name f _ o found in
      rw (found, step, write_table) w.modified

  -- A snapshot is taken while no transaction is open; then BEGIN, COMMIT and a write to a table that
  -- is there show in the snapshot, whose tables are the captured ones with the write made in them.
  pub commit_thaws_snapshot :
      (m : Manager T I V) (name : Text) (f : T → T) (r : ℕ)
      → Inv m
      → in_transaction m ≡ false
      → lookup (to_lower name) m.store.state.tables ≡ some r
      → let s = capture_snapshot m in
        let n = (run step (begin_stmt ∷ commit_stmt ∷ change_table name f ∷ []) s.manager).state in
        modify (to_lower name) f (database_of m).contents.tables
        ≡ some (contents_of n.store.objects s.snapshot.state).tables
  unfolding run
  commit_thaws_snapshot m name f r v idle e =
      let s = capture_snapshot m in
      let c = begun_and_ended s.manager in
      let d = m.store.state in
      let h = m.store.objects.tables in
      let h' : Heap T = mark true (mark true h d.tables) d.tables in
      let owned = IsOwned-mark false h' d.tables d.tables (
        IsOwned-mark true (mark true h d.tables) d.tables d.tables
          (IsOwned-mark true h d.tables d.tables v.live.tables)) in
      let same : view (mark false h' d.tables) d.tables ≡ view h d.tables =
        view-mark false h' d.tables d.tables
        ∙ view-mark true (mark true h d.tables) d.tables d.tables
        ∙ view-mark true h d.tables d.tables in
      rw (run_begin_commit s.manager (change_table name f ∷ []) idle) (
        subst
          (λ u.
            modify (to_lower name) f u
            ≡ some (view (after c (step (change_table name f) c)).store.objects.tables d.tables))
          same (write_shows c name f r owned e (thawed h' d.tables (to_lower name) r e)))
