-- ===== src/Storage/Cow/Writing.antt =====
-- Writing through a map of shared objects: what the write shows in the map, and that it shows in no
-- map whose objects are frozen.
use sqlite_mem.Prelude.{
  ℕ, ◌<◌, Text, to_lower, false, some, [], ◌∷◌, ◌==◌, ◌≡◌, refl, ◌∙◌, inl, inr, arith, text_eq→eq,
  text_eq_refl, Bool-cases,
}
use sqlite_mem.Storage.Cow.Maps.{Map, lookup, set}
use sqlite_mem.Storage.Cow.{Object, Heap, Refs, put, alloc, cloned, Writable, ensure_writable}
use sqlite_mem.Storage.Cow.Views.{
  shown, view, occurs, Below, Distinct, Named, Frozen, not_occurs_of_Below, Named-lookup, view-set,
  lookup-view-some,
}
use sqlite_mem.Storage.Cow.Owned.{
  IsOwned, Grows, Grows-refl, Grows-alloc, view-Grows, Below-Grows, Named-Grows,
}

-- Maps: writing back what is there, and looking up what was written.
set-lookup_self : {V : Type 0} (k : Text) (v : V) (m : Map V) → lookup k m ≡ some v → set k v m ≡ m
unfolding lookup set
set-lookup_self k v [] e = cc
set-lookup_self k v ((j, w) ∷ m) e = ground (arith, set-lookup_self k v m)

lookup-set_self : {V : Type 0} (k : Text) (v : V) (m : Map V) → lookup k (set k v m) ≡ some v
unfolding lookup set
lookup-set_self k v [] = ground (arith, text_eq_refl k)
lookup-set_self k v ((j, w) ∷ m) = ground (arith, lookup-set_self k v m)

-- A new address under a key.
Below-set : (n r : ℕ) (k : Text) (m : Refs) → r < n → Below n m → Below n (set k r m)
unfolding set
Below-set n r k [] l b = (l, tt)
Below-set n r k ((j, q) ∷ m) l (a, b) = ground (arith, Below-set n r k m l b)

occurs-set :
    (r q : ℕ) (k : Text) (m : Refs)
    → (r == q) ≡ false
    → occurs q m ≡ false
    → occurs q (set k r m) ≡ false
unfolding set
occurs-set r q k [] l e = ground arith
occurs-set r q k ((j, p) ∷ m) l e = ground (arith, occurs-set r q k m l)

Distinct-set :
    (r : ℕ) (k : Text) (m : Refs) → occurs r m ≡ false → Distinct m → Distinct (set k r m)
unfolding set
Distinct-set r k [] e d = (refl, tt)
Distinct-set r k ((j, p) ∷ m) e (a, d) = ground (arith, Distinct-set r k m, occurs-set r p k m)

module _ {C : Type 0} where
  Named-set :
      (h : Heap C) (r : ℕ) (k : Text) (m : Refs)
      → to_lower (h.at r).name ≡ k
      → Named h m
      → Named h (set k r m)
  unfolding set
  Named-set h r k [] x n = (x, tt)
  Named-set h r k ((j, p) ∷ m) x (y, n) = ground (arith, Named-set h r k m x n, text_eq→eq j k)

  -- A frozen object is not the one that is not.
  pub not_occurs_of_Frozen :
      (h : Heap C) (r : ℕ) (m : Refs) → Frozen h m → (h.at r).frozen ≡ false → occurs r m ≡ false
  not_occurs_of_Frozen h r [] f e = refl
  not_occurs_of_Frozen h r ((k, q) ∷ m) (x, f) e = ground (arith, not_occurs_of_Frozen h r m f e)

  pub Frozen-put :
      (h : Heap C) (r : ℕ) (o : Object C) (m : Refs)
      → occurs r m ≡ false
      → Frozen h m
      → Frozen (put h r o) m
  Frozen-put h r o [] e f = tt
  Frozen-put h r o ((k, q) ∷ m) e (x, f) = ground (arith, Frozen-put h r o m)

  Named-put :
      (h : Heap C) (r : ℕ) (o : Object C) (m : Refs)
      → o.name ≡ (h.at r).name
      → Named h m
      → Named (put h r o) m
  Named-put h r o [] e f = tt
  Named-put h r o ((k, q) ∷ m) e (x, f) = ground (arith, Named-put h r o m)

  pub IsOwned-put :
      (h : Heap C) (r : ℕ) (o : Object C) (m : Refs)
      → o.name ≡ (h.at r).name
      → IsOwned h m
      → IsOwned (put h r o) m
  IsOwned-put h r o m e w = record {
    below = w.below;
    named = Named-put h r o m e w.named;
    distinct = w.distinct;
  }

  -- The object under the key `k` has been made writable, and nothing shows of it.
  pub record IsWritable (h : Heap C) (m : Refs) (k : Text) (w : Writable C) : Type 0 where
    pub grows : Grows h w.heap
    pub owned : IsOwned w.heap w.refs
    pub same_view : view w.heap w.refs ≡ view h m
    pub stands : lookup k w.refs ≡ some w.ref
    pub free : (w.heap.at w.ref).frozen ≡ false

  copy-IsWritable :
      (h : Heap C) (m : Refs) (k : Text) (r : ℕ)
      → IsOwned h m
      → lookup k m ≡ some r
      → IsWritable h m k
          (record { heap = alloc h (cloned (h.at r)); refs = set k h.next m; ref = h.next })
  copy-IsWritable h m k r o e =
      let copy : Object C = cloned (h.at r) in
      let grow = Grows-alloc h copy in
      let here : (alloc h copy).at h.next ≡ copy = ground arith in
      let name = Named-lookup h k m r o.named e in
      record {
        grows = grow;
        owned = record {
          below = Below-set _ _ k m (omega arith) (Below-Grows grow m o.below);
          named =
              Named-set (alloc h copy) h.next k m (rw here name)
                (Named-Grows grow m o.below o.named);
          distinct = Distinct-set h.next k m (not_occurs_of_Below h.next m o.below) o.distinct;
        };
        same_view =
            view-set (alloc h copy) k h.next m
            ∙ rw (here, view-Grows grow m o.below)
                (set-lookup_self k (shown (h.at r)) (view h m) (lookup-view-some h k m r e));
        stands = lookup-set_self k h.next m;
        free = rw here refl;
      }

  pub ensure_writable-IsWritable :
      (h : Heap C) (m : Refs) (k : Text) (r : ℕ)
      → IsOwned h m
      → lookup k m ≡ some r
      → IsWritable h m k (ensure_writable h m r)
  unfolding ensure_writable
  ensure_writable-IsWritable h m k r o e = elim (Bool-cases (h.at r).frozen) [
    | inl shared ↦
        rw (shared, ensure_writable, Named-lookup h k m r o.named e) (copy-IsWritable h m k r o e)
    | inr free ↦
        rw (free, ensure_writable)
          (record { grows = Grows-refl h; owned = o; same_view = refl; stands = e; free = free })
  ]
