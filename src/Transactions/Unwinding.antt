-- ===== src/Transactions/Unwinding.antt =====
-- What a rollback returns to, on the plain database: whatever the commands between did.
use sqlite_mem.Prelude.{
  suc, Text, to_lower, text_eq_refl, Bool, true, false, ◌&&◌, some, List, [], ◌∷◌, ◌++◌, ◌≡◌, refl,
  ap, ◌∙◌, inl, inr, arith, take, get_elem?, length, Option-cases,
}
use sqlite_mem.Errors.{Result}
use sqlite_mem.Storage.Cow.Writes.{modify}
use sqlite_mem.Transactions.{
  Savepoint, find_savepoint, Command, begin_stmt, commit_stmt, rollback_stmt, rollback_to_stmt,
  savepoint_stmt, release_stmt, change_table, change_index, change_values, count_changes, draw, run,
  after,
}
use sqlite_mem.Transactions.Spec.{
  Base, Database, inside, change_entry, spec_begin, spec_rollback_to, spec_savepoint, spec_release,
  spec_step,
}

-- Neither COMMIT nor ROLLBACK.
abbrev pub is_inner : {T I V : Type 0} → Command T I V → Bool
is_inner commit_stmt = false
is_inner rollback_stmt = false
is_inner _ = true

-- A statement, which does not control transactions.
abbrev pub is_change : {T I V : Type 0} → Command T I V → Bool
is_change (change_table name f) = true
is_change (change_index name f) = true
is_change (change_values f) = true
is_change (count_changes n r) = true
is_change draw = true
is_change _ = false

abbrev pub all : {A : Type 0} → (A → Bool) → List A → Bool
all p [] = true
all p (x ∷ xs) = p x && all p xs

pub find_savepoint_last :
    {D : Type 0} (name : Text) (ps : List (Savepoint D)) (p : Savepoint D)
    → p.name ≡ name
    → find_savepoint name (ps ++ (p ∷ [])) ≡ some (length ps)
unfolding find_savepoint
find_savepoint_last name [] p e = rw (e, text_eq_refl (to_lower name)) refl
find_savepoint_last name (q ∷ ps) p e = rw (find_savepoint_last name ps p e) refl

pub get_elem?_last :
    {D : Type 0} (ps : List D) (p : D) → get_elem? (ps ++ (p ∷ [])) (length ps) ≡ some p
get_elem?_last [] p = refl
get_elem?_last (q ∷ ps) p = get_elem?_last ps p

pub take_whole :
    {D : Type 0} (ps : List D) (p : D) → take (suc (length ps)) (ps ++ (p ∷ [])) ≡ ps ++ (p ∷ [])
take_whole [] p = refl
take_whole (q ∷ ps) p = ap (λ t. q ∷ t) (take_whole ps p)

module _ {T I V : Type 0} where
  -- A transaction that BEGIN opened, with what it returns to.
  pub record Within (b : Base T I V) (d : Database T I V) : Type 0 where
    pub base : d.base ≡ some b
    pub begun : d.by_savepoint ≡ false

  -- A statement leaves the transaction and its savepoints as they are.
  pub record SameControl (d e : Database T I V) : Type 0 where
    pub base : e.base ≡ d.base
    pub points : e.points ≡ d.points
    pub by_savepoint : e.by_savepoint ≡ d.by_savepoint

  SameControl-refl : (d : Database T I V) → SameControl d d
  SameControl-refl d = record { base = refl; points = refl; by_savepoint = refl }

  change-SameControl :
      (c : Command T I V) (d : Database T I V)
      → is_change c ≡ true
      → SameControl d (after d (spec_step c d))
  unfolding spec_step
  change-SameControl (change_table name f) d e =
      elim (Option-cases (modify (to_lower name) f d.contents.tables)) [
        | inl missing ↦ rw (missing, spec_step, change_entry) (SameControl-refl d)
        | inr (t, found) ↦
            rw (found, spec_step, change_entry)
              (record { base = refl; points = refl; by_savepoint = refl })
      ]
  change-SameControl (change_index name f) d e =
      elim (Option-cases (modify (to_lower name) f d.contents.indexes)) [
        | inl missing ↦ rw (missing, spec_step, change_entry) (SameControl-refl d)
        | inr (t, found) ↦
            rw (found, spec_step, change_entry)
              (record { base = refl; points = refl; by_savepoint = refl })
      ]
  change-SameControl (change_values f) d e = record {
    base = refl;
    points = refl;
    by_savepoint = refl;
  }
  change-SameControl (count_changes n r) d e = record {
    base = refl;
    points = refl;
    by_savepoint = refl;
  }
  change-SameControl draw d e = record { base = refl; points = refl; by_savepoint = refl }
  change-SameControl begin_stmt d e = cc
  change-SameControl commit_stmt d e = cc
  change-SameControl rollback_stmt d e = cc
  change-SameControl (rollback_to_stmt name) d e = cc
  change-SameControl (savepoint_stmt name) d e = cc
  change-SameControl (release_stmt name) d e = cc

  Within-SameControl :
      (b : Base T I V) (d e : Database T I V) → Within b d → SameControl d e → Within b e
  Within-SameControl b d e w s = record { base = s.base ∙ w.base; begun = s.by_savepoint ∙ w.begun }

  pub inside_open :
      (message : Text) (b : Base T I V) (d : Database T I V) (r : Result (Database T I V))
      → d.base ≡ some b
      → inside message d r ≡ r
  inside_open message b d r e = rw e refl

  Within-rollback_to :
      (b : Base T I V) (name : Text) (d : Database T I V)
      → Within b d
      → Within b (after d (spec_rollback_to name d))
  unfolding spec_rollback_to
  Within-rollback_to b name d w =
      rw (spec_rollback_to, inside_open _ b d _ w.base)
        (elim (Option-cases (find_savepoint name d.points)) [
          | inl missing ↦ rw missing w
          | inr (i, found) ↦ elim (Option-cases (get_elem? d.points i)) [
            | inl out ↦ rw (found, out) w
            | inr (p, here) ↦ rw (found, here) (record { base = w.base; begun = w.begun })
          ]
        ])

  Within-release :
      (b : Base T I V) (name : Text) (d : Database T I V)
      → Within b d
      → Within b (after d (spec_release name d))
  unfolding spec_release
  Within-release b name d w =
      rw (spec_release, inside_open _ b d _ w.base)
        (elim (Option-cases (find_savepoint name d.points)) [
          | inl missing ↦ rw missing w
          | inr (i, found) ↦ rw (found, w.begun) (record { base = w.base; begun = refl })
        ])

  Within-step :
      (b : Base T I V) (c : Command T I V) (d : Database T I V)
      → is_inner c ≡ true
      → Within b d
      → Within b (after d (spec_step c d))
  unfolding spec_step spec_begin spec_savepoint
  Within-step b begin_stmt d e w =
      rw (w.base, spec_step, spec_begin) (record { base = refl; begun = w.begun })
  Within-step b commit_stmt d e w = cc
  Within-step b rollback_stmt d e w = cc
  Within-step b (rollback_to_stmt name) d e w = Within-rollback_to b name d w
  Within-step b (savepoint_stmt name) d e w =
      rw (w.base, spec_step, spec_savepoint) (record { base = w.base; begun = w.begun })
  Within-step b (release_stmt name) d e w = Within-release b name d w
  Within-step b (change_table name f) d e w =
      Within-SameControl b d _ w (change-SameControl (change_table name f) d refl)
  Within-step b (change_index name f) d e w =
      Within-SameControl b d _ w (change-SameControl (change_index name f) d refl)
  Within-step b (change_values f) d e w = record { base = w.base; begun = w.begun }
  Within-step b (count_changes n r) d e w = record { base = w.base; begun = w.begun }
  Within-step b draw d e w = record { base = w.base; begun = w.begun }

  pub Within-run :
      (b : Base T I V) (cs : List (Command T I V)) (d : Database T I V)
      → all is_inner cs ≡ true
      → Within b d
      → Within b (run spec_step cs d).state
  unfolding run
  Within-run b [] d e w = w
  Within-run b (c ∷ cs) d e w =
      Within-run b cs (after d (spec_step c d)) (ground (arith, e))
        (Within-step b c d (ground (arith, e)) w)

  pub SameControl-run :
      (cs : List (Command T I V)) (d : Database T I V)
      → all is_change cs ≡ true
      → SameControl d (run spec_step cs d).state
  unfolding run
  SameControl-run [] d e = SameControl-refl d
  SameControl-run (c ∷ cs) d e =
      let s = change-SameControl c d (ground (arith, e)) in
      let t = SameControl-run cs (after d (spec_step c d)) (ground (arith, e)) in
      record {
        base = t.base ∙ s.base;
        points = t.points ∙ s.points;
        by_savepoint = t.by_savepoint ∙ s.by_savepoint;
      }
