-- ===== src/Transactions/Control.antt =====
-- Transaction control refines its meaning.
use sqlite_mem.Prelude.{
  ℕ, ◌<◌, ◌^◌, Text, codes, true, false, Option, none, some, ◌≡◌, ◌⊎◌, refl, inl, inr,
}
use sqlite_mem.Errors.{Result, ok, err}
use sqlite_mem.Runtime.Prng.{set_state, set_state_lem}
use sqlite_mem.Storage.State.{DatabaseState, Objects, adopt}
use sqlite_mem.Transactions.{
  Manager, begin, commit, closed, restored, rollback_all, rollback, require_transaction,
}
use sqlite_mem.Transactions.Spec.{Database, idle, inside, spec_begin, spec_rollback}
use sqlite_mem.Transactions.Abstraction.{Owns, Saved, Inv, database_of, BaseSaved}
use sqlite_mem.Transactions.Shared.{Owns-mark_shared, contents_of-mark_shared, Saved-freeze}

-- The outcome on managers stands for the outcome on databases: the same error, or a manager that
-- keeps the invariant and stands for the database.
abbrev pub Refines : {T I V : Type 0} → Result (Manager T I V) → Result (Database T I V) → Type 0
Refines (ok m) (ok d) = Inv m × (database_of m ≡ d)
Refines (ok m) (err e) = false ≡ true
Refines (err e) (ok d) = false ≡ true
Refines (err e) (err f) = e ≡ f

module _ {T I V : Type 0} where
  -- A transaction is open, with what it returns to, or there is none.
  pub BaseSaved-cases :
      (o : Objects T I) (d : Option (DatabaseState V)) (p : Option ℕ)
      → BaseSaved o d p
      → ((d ≡ none) × (p ≡ none))
        ⊎ ((e : DatabaseState V) × (q : ℕ) × (d ≡ some e) × (p ≡ some q) × Saved o e × (q < 2 ^ 64))
  BaseSaved-cases o none none b = inl (refl, refl)
  BaseSaved-cases o none (some p) b = cc
  BaseSaved-cases o (some d) none b = cc
  BaseSaved-cases o (some d) (some p) (s, l) = inr (d, p, refl, refl, s, l)

  -- The end of a transaction.
  pub closed-Refines :
      (m : Manager T I V)
      → Owns m.store.objects m.store.state
      → m.prng < 2 ^ 64
      → Refines (ok (closed m)) (ok (idle (database_of m)))
  closed-Refines m o l = (
    record {
      live = Owns-mark_shared m.store false m.store.state o;
      random = l;
      base = tt;
      points = tt;
    },
    rw (contents_of-mark_shared m.store false m.store.state) refl,
  )

  -- Both check first that a transaction is open.
  pub inside-Refines :
      (message : Text) (m : Manager T I V)
      → Inv m
      → (r : Result (Manager T I V)) (d : Result (Database T I V)) → Refines r d
      → Refines
          (require_transaction message m.transaction_snapshot r)
          (inside message (database_of m) d)
  inside-Refines message m v r d f = elim (BaseSaved-cases _ _ _ v.base) [
    | inl (none_saved, no_state) ↦ rw (none_saved) refl
    | inr (e, q, snapshot, state, s, l) ↦ rw (snapshot, state) f
  ]

  pub begin-Refines : (m : Manager T I V) → Inv m → Refines (begin m) (spec_begin (database_of m))
  unfolding begin spec_begin
  begin-Refines m v = elim (BaseSaved-cases _ _ _ v.base) [
    | inl (none_saved, no_state) ↦
        rw (none_saved, begin, spec_begin, database_of)
          (
            record {
              live = Owns-mark_shared m.store true m.store.state v.live;
              random = v.random;
              base = (Saved-freeze m.store v.live, v.random);
              points = tt;
            },
            rw (contents_of-mark_shared m.store true m.store.state) refl,
          )
    | inr (e, q, snapshot, state, s, l) ↦ rw (snapshot, state, begin, spec_begin, database_of) refl
  ]

  pub commit-Refines :
      (m : Manager T I V)
      → Inv m
      → Refines (commit m) (
          inside
            (codes "cannot commit - no transaction is active")
            (database_of m)
            (ok (idle (database_of m))))
  unfolding commit
  commit-Refines m v = inside-Refines _ m v _ _ (closed-Refines m v.live v.random)

  pub rollback_all-Refines :
      (m : Manager T I V) → Inv m → Refines (rollback none m) (spec_rollback (database_of m))
  unfolding rollback spec_rollback set_state
  rollback_all-Refines m v = elim (BaseSaved-cases _ _ _ v.base) [
    | inl (none_saved, no_state) ↦
        rw (none_saved, rollback, rollback_all, spec_rollback, database_of) refl
    | inr (e, q, snapshot, state, s, l) ↦
        rw (snapshot, state, rollback, rollback_all, spec_rollback, database_of, set_state_lem q l)
          (closed-Refines (record m { store = restored m (adopt e m.store); prng = q })
            (record { tables = s.owns.tables; indexes = s.owns.indexes }) l)
  ]
