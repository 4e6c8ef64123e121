-- ===== src/Transactions/Points.antt =====
-- The list of savepoints, as the manager keeps it and as plain values.
use sqlite_mem.Prelude.{
  ℕ, zero, suc, ◌<◌, ◌^◌, Text, none, some, List, [], ◌∷◌, ◌++◌, ◌≡◌, refl, sym, ap, take,
  get_elem?,
}
use mathlib.Core.Option.{some-injective}
use sqlite_mem.Storage.State.{DatabaseState, Objects}
use sqlite_mem.Transactions.{Savepoint, find_savepoint}
use sqlite_mem.Transactions.Abstraction.{Saved, PointsSaved, points_of, point_of}

module _ {T I V : Type 0} (o : Objects T I) where
  pub find_savepoint-points_of :
      (name : Text) (ss : List (Savepoint (DatabaseState V)))
      → find_savepoint name (points_of o ss) ≡ find_savepoint name ss
  unfolding find_savepoint
  find_savepoint-points_of name [] = refl
  find_savepoint-points_of name (s ∷ ss) = rw (find_savepoint-points_of name ss) refl

  pub get_elem?-points_of :
      (ss : List (Savepoint (DatabaseState V))) (i : ℕ) (s : Savepoint (DatabaseState V))
      → get_elem? ss i ≡ some s
      → get_elem? (points_of o ss) i ≡ some (point_of o s)
  get_elem?-points_of [] i s e = cc
  get_elem?-points_of (x ∷ ss) zero s e = cc
  get_elem?-points_of (x ∷ ss) (suc i) s e = get_elem?-points_of ss i s e

  pub get_elem?-points_of-none :
      (ss : List (Savepoint (DatabaseState V))) (i : ℕ)
      → get_elem? ss i ≡ none
      → get_elem? (points_of o ss) i ≡ none
  get_elem?-points_of-none [] i e = refl
  get_elem?-points_of-none (x ∷ ss) zero e = cc
  get_elem?-points_of-none (x ∷ ss) (suc i) e = get_elem?-points_of-none ss i e

  pub take-points_of :
      (i : ℕ) (ss : List (Savepoint (DatabaseState V)))
      → points_of o (take i ss) ≡ take i (points_of o ss)
  take-points_of zero ss = refl
  take-points_of (suc i) [] = refl
  take-points_of (suc i) (s ∷ ss) = ap (λ t. point_of o s ∷ t) (take-points_of i ss)

  pub append-points_of :
      (ss : List (Savepoint (DatabaseState V))) (s : Savepoint (DatabaseState V))
      → points_of o (ss ++ (s ∷ [])) ≡ points_of o ss ++ (point_of o s ∷ [])
  append-points_of [] s = refl
  append-points_of (x ∷ ss) s = ap (λ t. point_of o x ∷ t) (append-points_of ss s)

  pub PointsSaved-take :
      (i : ℕ) (ss : List (Savepoint (DatabaseState V)))
      → PointsSaved o ss
      → PointsSaved o (take i ss)
  PointsSaved-take zero ss p = tt
  PointsSaved-take (suc i) [] p = tt
  PointsSaved-take (suc i) (s ∷ ss) (x, p) = (x, PointsSaved-take i ss p)

  pub PointsSaved-append :
      (ss : List (Savepoint (DatabaseState V))) (s : Savepoint (DatabaseState V))
      → PointsSaved o ss
      → Saved o s.state × (s.prng_state < 2 ^ 64)
      → PointsSaved o (ss ++ (s ∷ []))
  PointsSaved-append [] s p x = (x, tt)
  PointsSaved-append (y ∷ ss) s (z, p) x = (z, PointsSaved-append ss s p x)

  pub Saved-get_elem? :
      (ss : List (Savepoint (DatabaseState V))) (i : ℕ) (s : Savepoint (DatabaseState V))
      → PointsSaved o ss
      → get_elem? ss i ≡ some s
      → Saved o s.state × (s.prng_state < 2 ^ 64)
  Saved-get_elem? [] i s p e = cc
  Saved-get_elem? (x ∷ ss) zero s (a, p) e = rw (sym (some-injective _ _ e)) a
  Saved-get_elem? (x ∷ ss) (suc i) s (a, p) e = Saved-get_elem? ss i s p e
