-- ===== src/Transactions/Returns.antt =====
-- Where ROLLBACK and ROLLBACK TO return to, on the plain database.
use sqlite_mem.Prelude.{
  suc, Text, true, false, none, some, List, [], ◌∷◌, ◌++◌, ◌≡◌, refl, ◌∙◌, inl, inr, take,
  get_elem?, length, Option-cases,
}
use sqlite_mem.Errors.{ok}
use sqlite_mem.Transactions.{
  Savepoint, is_some, find_savepoint, Command, begin_stmt, rollback_stmt, rollback_to_stmt,
  savepoint_stmt, run, after,
}
use sqlite_mem.Transactions.Spec.{
  Contents, Base, Database, idle, opened, spec_begin, spec_rollback, spec_rollback_to,
  spec_savepoint, spec_step,
}
use sqlite_mem.Transactions.Unwinding.{
  inside_open, Within-run, SameControl-run, find_savepoint_last, get_elem?_last, take_whole,
  is_change, all, is_inner,
}

module _ {T I V : Type 0} where
  begin_idle : (d : Database T I V) → d.base ≡ none → after d (spec_begin d) ≡ opened false [] d
  unfolding spec_begin
  begin_idle d e = rw (e, spec_begin) refl

  rollback_of_base :
      (b : Base T I V) (d : Database T I V)
      → d.base ≡ some b
      → spec_rollback d ≡ ok (idle (record d { contents = b.contents; prng = b.prng }))
  unfolding spec_rollback
  rollback_of_base b d e = rw (e, spec_rollback) refl

  -- BEGIN, commands other than COMMIT and ROLLBACK, and ROLLBACK.
  pub spec_rollback_lem :
      (cs : List (Command T I V)) (d : Database T I V)
      → d.base ≡ none
      → all is_inner cs ≡ true
      → let e = (run spec_step (begin_stmt ∷ cs) d).state in
        spec_step rollback_stmt e ≡ ok (idle (record e { contents = d.contents; prng = d.prng }))
  unfolding run spec_step spec_begin spec_rollback
  spec_rollback_lem cs d e i =
      let b : Base T I V = record { contents = d.contents; prng = d.prng } in
      let w = Within-run b cs (opened false [] d) i (record { base = refl; begun = refl }) in
      rw (begin_idle d e) (rollback_of_base b (run spec_step cs (opened false [] d)).state w.base)

  -- The point that SAVEPOINT adds.
  abbrev pub point : Text → Database T I V → Savepoint (Contents T I V)
  point name d = record { name = name; state = d.contents; prng_state = d.prng }

  -- SAVEPOINT opens a transaction, and adds the point.
  pub record Pointed (name : Text) (d e : Database T I V) : Type 0 where
    pub is_open : is_some e.base ≡ true
    pub points : e.points ≡ d.points ++ (point name d ∷ [])

  spec_savepoint-Pointed :
      (name : Text) (d : Database T I V) → Pointed name d (spec_savepoint name d)
  unfolding spec_savepoint
  spec_savepoint-Pointed name d = elim (Option-cases d.base) [
    | inl no_base ↦ rw (no_base, spec_savepoint) (record { is_open = refl; points = refl })
    | inr (b, base) ↦ rw (base, spec_savepoint) (record { is_open = rw base refl; points = refl })
  ]

  rollback_to_of_point :
      (name : Text) (d e : Database T I V)
      → Pointed name d e
      → spec_rollback_to name e ≡ ok (record e { contents = d.contents; prng = d.prng })
  unfolding spec_rollback_to
  rollback_to_of_point name d e p =
      let q = point name d in
      let found : find_savepoint name e.points ≡ some (length d.points) =
        rw p.points (find_savepoint_last name d.points q refl) in
      let here : get_elem? e.points (length d.points) ≡ some q =
        rw p.points (get_elem?_last d.points q) in
      let whole : take (suc (length d.points)) e.points ≡ e.points =
        rw p.points (take_whole d.points q) in
      elim (Option-cases e.base) [
        | inl no_base ↦ cc (rw no_base at p.is_open)
        | inr (b, base) ↦ rw (spec_rollback_to, inside_open _ b e _ base, found, here, whole) refl
      ]

  -- SAVEPOINT, statements, and ROLLBACK TO.
  pub spec_rollback_to_lem :
      (name : Text) (cs : List (Command T I V)) (d : Database T I V)
      → all is_change cs ≡ true
      → let e = (run spec_step (savepoint_stmt name ∷ cs) d).state in
        spec_step (rollback_to_stmt name) e ≡ ok (record e { contents = d.contents; prng = d.prng })
  unfolding run spec_step
  spec_rollback_to_lem name cs d c =
      let s = SameControl-run cs (spec_savepoint name d) c in
      let p = spec_savepoint-Pointed name d in
      rollback_to_of_point name d (run spec_step cs (spec_savepoint name d)).state
        (record { is_open = rw s.base p.is_open; points = s.points ∙ p.points })
