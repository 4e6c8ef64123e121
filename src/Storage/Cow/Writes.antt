-- ===== src/Storage/Cow/Writes.antt =====
-- A write by name: `getWritableTable(name)` and a change through the object that it returns.
use sqlite_mem.Prelude.{
  ℕ, Text, to_lower, true, false, Option, none, some, ◌≡◌, refl, sym, ap, ◌∙◌, inl, inr,
  Option-cases,
}
use mathlib.Core.Path.{subst}
use mathlib.Core.Option.{some-injective}
use sqlite_mem.Storage.Cow.Maps.{Map, lookup, set}
use sqlite_mem.Storage.Cow.{
  Object, Heap, Refs, put, mark, Writable, ensure_writable, get_writable, write_at,
}
use sqlite_mem.Storage.Cow.Views.{
  Shown, shown, view, Frozen, view-put, view-put_self, view-mark, lookup-view-some,
  lookup-view-none,
}
use sqlite_mem.Storage.Cow.Owned.{IsOwned, Grows, view-Grows, IsOwned-Grows, Frozen-Grows}
use sqlite_mem.Storage.Cow.Marking.{IsOwned-mark, Frozen-mark}
use sqlite_mem.Storage.Cow.Writing.{
  IsWritable, ensure_writable-IsWritable, not_occurs_of_Frozen, Frozen-put, IsOwned-put,
}

module _ {C : Type 0} where
  -- A change of the heap that no frozen map shows.
  pub record Keeps (h h' : Heap C) : Type 0 where
    pub owned : (m : Refs) → IsOwned h m → Frozen h m → IsOwned h' m
    pub frozen : (m : Refs) → IsOwned h m → Frozen h m → Frozen h' m
    pub same : (m : Refs) → IsOwned h m → Frozen h m → view h' m ≡ view h m

  pub Keeps-trans : {h h' h'' : Heap C} → Keeps h h' → Keeps h' h'' → Keeps h h''
  Keeps-trans p q = record {
    owned = λ m o f. q.owned m (p.owned m o f) (p.frozen m o f);
    frozen = λ m o f. q.frozen m (p.owned m o f) (p.frozen m o f);
    same = λ m o f. q.same m (p.owned m o f) (p.frozen m o f) ∙ p.same m o f;
  }

  pub Keeps-Grows : {h h' : Heap C} → Grows h h' → Keeps h h'
  Keeps-Grows g = record {
    owned = λ m o f. IsOwned-Grows g m o;
    frozen = λ m o f. Frozen-Grows g m o.below f;
    same = λ m o f. view-Grows g m o.below;
  }

  pub Keeps-freeze : (h : Heap C) (m' : Refs) → Keeps h (mark true h m')
  Keeps-freeze h m' = record {
    owned = λ m o f. IsOwned-mark true h m' m o;
    frozen = λ m o f. Frozen-mark h m' m f;
    same = λ m o f. view-mark true h m' m;
  }

  pub Keeps-put :
      (h : Heap C) (r : ℕ) (o : Object C)
      → o.name ≡ (h.at r).name
      → (h.at r).frozen ≡ false
      → Keeps h (put h r o)
  Keeps-put h r o e free = record {
    owned = λ m w f. IsOwned-put h r o m e w;
    frozen = λ m w f. Frozen-put h r o m (not_occurs_of_Frozen h r m f free) f;
    same = λ m w f. view-put h r o m (not_occurs_of_Frozen h r m f free);
  }

  -- What a write does to the entry under `k`, on plain values.
  unfoldable pub modify : Text → (C → C) → Map (Shown C) → Option (Map (Shown C))
  modify k f m = elim (lookup k m) [ none ↦ none | some s ↦ some (set k (s.0, f s.1) m) ]

  -- The outcome of a write by name: it is `modify` on what the map shows, the map stays owned, and no
  -- frozen map shows it.
  pub record IsWritten (h : Heap C) (m : Refs) (k : Text) (f : C → C) (w : Writable C)
      : Type 0 where
    pub modified : modify k f (view h m) ≡ some (view (write_at f w) w.refs)
    pub owned : IsOwned (write_at f w) w.refs
    pub keeps : Keeps h (write_at f w)

  modify_of_lookup :
      (k : Text) (f : C → C) (m : Map (Shown C)) (s : Shown C)
      → lookup k m ≡ some s
      → modify k f m ≡ some (set k (s.0, f s.1) m)
  unfolding modify
  modify_of_lookup k f m s e = rw (e, modify)

  write_at-IsWritten :
      (h : Heap C) (m : Refs) (k : Text) (f : C → C) (w : Writable C)
      → IsWritable h m k w
      → IsWritten h m k f w
  write_at-IsWritten h m k f w v =
      let o = record (w.heap.at w.ref) { content = f (w.heap.at w.ref).content } in
      record {
        modified =
            ap (modify k f) (sym v.same_view)
            ∙ modify_of_lookup k f (view w.heap w.refs) (shown (w.heap.at w.ref))
                (lookup-view-some w.heap k w.refs w.ref v.stands)
            ∙ ap some (sym (view-put_self w.heap w.ref o k w.refs v.owned.distinct v.stands));
        owned = IsOwned-put w.heap w.ref o w.refs refl v.owned;
        keeps = Keeps-trans (Keeps-Grows v.grows) (Keeps-put w.heap w.ref o refl v.free);
      }

  pub get_writable-IsWritten :
      (h : Heap C) (m : Refs) (name : Text) (f : C → C) (w : Writable C)
      → IsOwned h m
      → get_writable h m name ≡ some w
      → IsWritten h m (to_lower name) f w
  unfolding get_writable
  get_writable-IsWritten h m name f w o e = elim (Option-cases (lookup (to_lower name) m)) [
    | inl missing ↦ cc (rw (missing, get_writable) at e)
    | inr (r, found) ↦
        subst (λ u. IsWritten h m (to_lower name) f u)
          (some-injective _ _ (rw (found, get_writable) at e))
          (write_at-IsWritten h m (to_lower name) f (ensure_writable h m r)
            (ensure_writable-IsWritable h m (to_lower name) r o found))
  ]

  pub modify_of_missing :
      (h : Heap C) (m : Refs) (name : Text) (f : C → C)
      → get_writable h m name ≡ none
      → modify (to_lower name) f (view h m) ≡ none
  unfolding get_writable modify
  modify_of_missing h m name f e = elim (Option-cases (lookup (to_lower name) m)) [
    | inl missing ↦ rw (lookup-view-none h (to_lower name) m missing, modify)
    | inr (r, found) ↦ cc (rw (found, get_writable) at e)
  ]
