-- ===== src/Storage/Cow/Marking.antt =====
-- Freezing, thawing and cloning a map of shared objects.
use sqlite_mem.Prelude.{ℕ, ◌<◌, Bool, true, false, [], ◌∷◌, ◌≡◌, refl, ap, ◌∙◌, arith}
use sqlite_mem.Storage.Cow.{Object, Heap, Refs, put, alloc, mark, cloned, clone_all}
use sqlite_mem.Storage.Cow.Views.{shown, view, occurs, Below, Distinct, Named, Frozen}
use sqlite_mem.Storage.Cow.Owned.{
  IsOwned, Grows, Grows-refl, Grows-trans, Grows-alloc, view-Grows, Below-Grows, Named-Grows,
}

module _ {C : Type 0} where
  pub next-mark : (b : Bool) (h : Heap C) (m : Refs) → (mark b h m).next ≡ h.next
  unfolding mark
  next-mark b h [] = refl
  next-mark b h ((k, r) ∷ m) = next-mark b (put h r (record (h.at r) { frozen = b })) m

  name-mark : (b : Bool) (h : Heap C) (m : Refs) (q : ℕ) → ((mark b h m).at q).name ≡ (h.at q).name
  unfolding mark
  name-mark b h [] q = refl
  name-mark b h ((k, r) ∷ m) q =
      ground (arith, name-mark b (put h r (record (h.at r) { frozen = b })) m q)

  -- What is frozen stays so while more is frozen.
  frozen-mark :
      (h : Heap C) (m : Refs) (q : ℕ)
      → (h.at q).frozen ≡ true
      → ((mark true h m).at q).frozen ≡ true
  unfolding mark
  frozen-mark h [] q e = e
  frozen-mark h ((k, r) ∷ m) q e =
      ground (arith, frozen-mark (put h r (record (h.at r) { frozen = true })) m q)

  Named-mark : (b : Bool) (h : Heap C) (m' m : Refs) → Named h m → Named (mark b h m') m
  Named-mark b h m' [] n = tt
  Named-mark b h m' ((k, r) ∷ m) (x, n) = (rw (name-mark b h m' r) x, Named-mark b h m' m n)

  pub IsOwned-mark : (b : Bool) (h : Heap C) (m' m : Refs) → IsOwned h m → IsOwned (mark b h m') m
  IsOwned-mark b h m' m o = record {
    below = rw (next-mark b h m') o.below;
    named = Named-mark b h m' m o.named;
    distinct = o.distinct;
  }

  pub Frozen-mark : (h : Heap C) (m' m : Refs) → Frozen h m → Frozen (mark true h m') m
  Frozen-mark h m' [] f = tt
  Frozen-mark h m' ((k, r) ∷ m) (x, f) = (frozen-mark h m' r x, Frozen-mark h m' m f)

  pub Frozen-mark_self : (h : Heap C) (m : Refs) → Frozen (mark true h m) m
  unfolding mark
  Frozen-mark_self h [] = tt
  Frozen-mark_self h ((k, r) ∷ m) =
      let h' : Heap C = put h r (record (h.at r) { frozen = true }) in
      (frozen-mark h' m r (ground arith), Frozen-mark_self h' m)

  pub Grows-clone_all : (h : Heap C) (m : Refs) → Grows h (clone_all h m).heap
  unfolding clone_all
  Grows-clone_all h [] = Grows-refl h
  Grows-clone_all h ((k, r) ∷ m) =
      Grows-trans (Grows-alloc h (cloned (h.at r))) (Grows-clone_all (alloc h (cloned (h.at r))) m)

  -- The copies are new objects.
  clone_all_fresh :
      (h : Heap C) (m : Refs) (q : ℕ) → q < h.next → occurs q (clone_all h m).refs ≡ false
  unfolding clone_all
  clone_all_fresh h [] q l = refl
  clone_all_fresh h ((k, r) ∷ m) q l =
      ground (arith, clone_all_fresh (alloc h (cloned (h.at r))) m q)

  at-clone_all :
      (h : Heap C) (o : Object C) (m : Refs) → (clone_all (alloc h o) m).heap.at h.next ≡ o
  at-clone_all h o m = (Grows-clone_all (alloc h o) m).same h.next (omega arith) ∙ ground arith

  -- A clone shows what the map shows.
  pub view-clone_all :
      (h : Heap C) (m : Refs)
      → Below h.next m
      → view (clone_all h m).heap (clone_all h m).refs ≡ view h m
  unfolding clone_all
  view-clone_all h [] b = refl
  view-clone_all h ((k, r) ∷ m) (a, b) =
      let grow = Grows-alloc h (cloned (h.at r)) in
      let tail = view-clone_all (alloc h (cloned (h.at r))) m (Below-Grows grow m b) in
      rw (at-clone_all h (cloned (h.at r)) m)
        (ap (λ t. (k, shown (h.at r)) ∷ t) (tail ∙ view-Grows grow m b))

  Below-clone_all : (h : Heap C) (m : Refs) → Below (clone_all h m).heap.next (clone_all h m).refs
  unfolding clone_all
  Below-clone_all h [] = tt
  Below-clone_all h ((k, r) ∷ m) =
      let h' : Heap C = alloc h (cloned (h.at r)) in
      (omega (arith, (Grows-clone_all h' m).next), Below-clone_all h' m)

  Named-clone_all :
      (h : Heap C) (m : Refs)
      → Below h.next m
      → Named h m
      → Named (clone_all h m).heap (clone_all h m).refs
  unfolding clone_all
  Named-clone_all h [] b n = tt
  Named-clone_all h ((k, r) ∷ m) (a, b) (x, n) =
      let grow = Grows-alloc h (cloned (h.at r)) in
      (
        rw (at-clone_all h (cloned (h.at r)) m) x,
        Named-clone_all (alloc h (cloned (h.at r))) m (Below-Grows grow m b)
            (Named-Grows grow m b n),
      )

  Distinct-clone_all : (h : Heap C) (m : Refs) → Distinct (clone_all h m).refs
  unfolding clone_all
  Distinct-clone_all h [] = tt
  Distinct-clone_all h ((k, r) ∷ m) =
      let h' : Heap C = alloc h (cloned (h.at r)) in
      (clone_all_fresh h' m h.next (omega arith), Distinct-clone_all h' m)

  pub IsOwned-clone_all :
      (h : Heap C) (m : Refs) → IsOwned h m → IsOwned (clone_all h m).heap (clone_all h m).refs
  IsOwned-clone_all h m o = record {
    below = Below-clone_all h m;
    named = Named-clone_all h m o.below o.named;
    distinct = Distinct-clone_all h m;
  }
