-- ===== src/Storage/Cow/Views.antt =====
-- What a map of shared objects shows: each key with its object's name and content.
use sqlite_mem.Prelude.{
  ℕ, ◌<◌, Text, to_lower, Bool, true, false, ◌||◌, none, some, [], ◌∷◌, ◌==◌, ◌≡◌, refl, ◌∙◌, arith,
  text_eq→eq,
}
use sqlite_mem.Storage.Cow.Maps.{Map, lookup, set, delete}
use sqlite_mem.Storage.Cow.{Object, Heap, Refs, put, mark}

-- The content of a catalog entry, as a client sees it: the object's name and fields.
abbrev pub Shown : Type 0 → Type 0
Shown C = Text × C

module _ {C : Type 0} where
  abbrev pub shown : Object C → Shown C
  shown o = (o.name, o.content)

  abbrev pub view : Heap C → Refs → Map (Shown C)
  view h [] = []
  view h ((k, r) ∷ m) = (k, shown (h.at r)) ∷ view h m

-- Does the address stand in the map?
abbrev pub occurs : ℕ → Refs → Bool
occurs r [] = false
occurs r ((k, q) ∷ m) = q == r || occurs r m

-- Every address is below `n`.
abbrev pub Below : ℕ → Refs → Type 0
Below n [] = Unit
Below n ((k, r) ∷ m) = (r < n) × Below n m

-- No object stands under two keys.
abbrev pub Distinct : Refs → Type 0
Distinct [] = Unit
Distinct ((k, r) ∷ m) = (occurs r m ≡ false) × Distinct m

module _ {C : Type 0} (h : Heap C) where
  -- A key is the lower-case name of its object.
  abbrev pub Named : Refs → Type 0
  Named [] = Unit
  Named ((k, r) ∷ m) = (to_lower (h.at r).name ≡ k) × Named m

  abbrev pub Frozen : Refs → Type 0
  Frozen [] = Unit
  Frozen ((k, r) ∷ m) = ((h.at r).frozen ≡ true) × Frozen m

pub not_occurs_of_Below : (n : ℕ) (m : Refs) → Below n m → occurs n m ≡ false
not_occurs_of_Below n [] b = refl
not_occurs_of_Below n ((k, r) ∷ m) (a, b) = ground (arith, not_occurs_of_Below n m b)

pub occurs_of_lookup : (k : Text) (m : Refs) (r : ℕ) → lookup k m ≡ some r → occurs r m ≡ true
unfolding lookup
occurs_of_lookup k [] r e = cc
occurs_of_lookup k ((j, q) ∷ m) r e = ground (arith, occurs_of_lookup k m r)

pub Below-lookup : (k : Text) (n : ℕ) (m : Refs) (r : ℕ) → Below n m → lookup k m ≡ some r → r < n
unfolding lookup
Below-lookup k n [] r b e = cc
Below-lookup k n ((j, q) ∷ m) r (a, b) e = ground (arith, Below-lookup k n m r b)

module _ {C : Type 0} where
  pub Named-lookup :
      (h : Heap C) (k : Text) (m : Refs) (r : ℕ)
      → Named h m
      → lookup k m ≡ some r
      → to_lower (h.at r).name ≡ k
  unfolding lookup
  Named-lookup h k [] r b e = cc
  Named-lookup h k ((j, q) ∷ m) r (a, b) e = ground (arith, Named-lookup h k m r b, text_eq→eq j k)

  -- A write to an address outside the map does not show in it.
  pub view-put :
      (h : Heap C) (r : ℕ) (o : Object C) (m : Refs)
      → occurs r m ≡ false
      → view (put h r o) m ≡ view h m
  view-put h r o [] e = refl
  view-put h r o ((k, q) ∷ m) e = ground (arith, view-put h r o m)

  -- A write to an object of the map shows under its key alone.
  pub view-put_self :
      (h : Heap C) (r : ℕ) (o : Object C) (k : Text) (m : Refs)
      → Distinct m
      → lookup k m ≡ some r
      → view (put h r o) m ≡ set k (shown o) (view h m)
  unfolding lookup set
  view-put_self h r o k [] d e = cc
  view-put_self h r o k ((j, q) ∷ m) (a, d) e =
      ground (arith, view-put h r o m, view-put_self h r o k m d, occurs_of_lookup k m r)

  pub view-set :
      (h : Heap C) (k : Text) (r : ℕ) (m : Refs)
      → view h (set k r m) ≡ set k (shown (h.at r)) (view h m)
  unfolding set
  view-set h k r [] = refl
  view-set h k r ((j, q) ∷ m) = ground (arith, view-set h k r m)

  pub view-delete : (h : Heap C) (k : Text) (m : Refs) → view h (delete k m) ≡ delete k (view h m)
  unfolding delete
  view-delete h k [] = refl
  view-delete h k ((j, q) ∷ m) = ground (arith, view-delete h k m)

  pub lookup-view-none :
      (h : Heap C) (k : Text) (m : Refs) → lookup k m ≡ none → lookup k (view h m) ≡ none
  unfolding lookup
  lookup-view-none h k [] e = refl
  lookup-view-none h k ((j, q) ∷ m) e = ground (arith, lookup-view-none h k m)

  pub lookup-view-some :
      (h : Heap C) (k : Text) (m : Refs) (r : ℕ)
      → lookup k m ≡ some r
      → lookup k (view h m) ≡ some (shown (h.at r))
  unfolding lookup
  lookup-view-some h k [] r e = cc
  lookup-view-some h k ((j, q) ∷ m) r e = ground (arith, lookup-view-some h k m r)

  view-put_flag :
      (b : Bool) (h : Heap C) (r : ℕ) (m : Refs)
      → view (put h r (record (h.at r) { frozen = b })) m ≡ view h m
  view-put_flag b h r [] = refl
  view-put_flag b h r ((k, q) ∷ m) = ground (arith, view-put_flag b h r m)

  -- Freezing and thawing do not show.
  pub view-mark : (b : Bool) (h : Heap C) (m' m : Refs) → view (mark b h m') m ≡ view h m
  unfolding mark
  view-mark b h [] m = refl
  view-mark b h ((k, r) ∷ m') m =
      view-mark b (put h r (record (h.at r) { frozen = b })) m' m ∙ view-put_flag b h r m
