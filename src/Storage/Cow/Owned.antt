-- ===== src/Storage/Cow/Owned.antt =====
-- Invariants of a map of shared objects, and the operations that keep them.
use sqlite_mem.Prelude.{ℕ, ◌≤◌, ◌<◌, [], ◌∷◌, ◌≡◌, refl, ◌∙◌, arith}
use sqlite_mem.Storage.Cow.{Object, Heap, Refs, alloc}
use sqlite_mem.Storage.Cow.Views.{view, Below, Distinct, Named, Frozen}

module _ {C : Type 0} where
  -- A map whose objects are its own: allocated, each under one key, its own lower-case name.
  pub record IsOwned (h : Heap C) (m : Refs) : Type 0 where
    pub below : Below h.next m
    pub named : Named h m
    pub distinct : Distinct m

  -- `h'` has all objects of `h` as they were, and perhaps more.
  pub record Grows (h h' : Heap C) : Type 0 where
    pub next : h.next ≤ h'.next
    pub same : (r : ℕ) → r < h.next → h'.at r ≡ h.at r

  pub Grows-refl : (h : Heap C) → Grows h h
  Grows-refl h = record { next = omega arith; same = λ r l. refl }

  pub Grows-trans : {h h' h'' : Heap C} → Grows h h' → Grows h' h'' → Grows h h''
  Grows-trans g g' = record {
    next = omega (arith, g.next, g'.next);
    same = λ r l. g'.same r (omega (arith, g.next)) ∙ g.same r l;
  }

  pub Grows-alloc : (h : Heap C) (o : Object C) → Grows h (alloc h o)
  Grows-alloc h o = record { next = omega arith; same = λ r l. ground arith }

  module _ {h h' : Heap C} (g : Grows h h') where
    pub view-Grows : (m : Refs) → Below h.next m → view h' m ≡ view h m
    view-Grows [] b = refl
    view-Grows ((k, r) ∷ m) (a, b) = ground (arith, g.same r a, view-Grows m b)

    pub Frozen-Grows : (m : Refs) → Below h.next m → Frozen h m → Frozen h' m
    Frozen-Grows [] b f = tt
    Frozen-Grows ((k, r) ∷ m) (a, b) (x, f) = (rw (g.same r a) x, Frozen-Grows m b f)

    pub Named-Grows : (m : Refs) → Below h.next m → Named h m → Named h' m
    Named-Grows [] b f = tt
    Named-Grows ((k, r) ∷ m) (a, b) (x, f) = (rw (g.same r a) x, Named-Grows m b f)

    pub Below-Grows : (m : Refs) → Below h.next m → Below h'.next m
    Below-Grows [] b = tt
    Below-Grows ((k, r) ∷ m) (a, b) = (omega (arith, g.next), Below-Grows m b)

    pub IsOwned-Grows : (m : Refs) → IsOwned h m → IsOwned h' m
    IsOwned-Grows m o = record {
      below = Below-Grows m o.below;
      named = Named-Grows m o.below o.named;
      distinct = o.distinct;
    }
