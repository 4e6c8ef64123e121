-- ===== src/Indexes/Insertion.antt =====
-- Inserting a rowid into an index: what is looked up afterwards.
use sqlite_mem.Prelude.{
  Text, Bool, true, false, some, List, [], ◌∷◌, ◌++◌, if◌then◌else◌, text_eq, text_eq→eq,
  text_eq_refl, ◌≡◌, refl, ap, sym, arith, inl, inr, Bool-cases, Option-cases,
}
use mathlib.Core.Path.{subst}
use sqlite_mem.Prelude.Int.{ℤ}
use sqlite_mem.Errors.{ok, Result-cases, ok-injective}
use sqlite_mem.Storage.Cow.Maps.{Map, lookup, set}
use sqlite_mem.Types.Value.{SqlValue}
use sqlite_mem.Indexes.Keys.{has_null, serialize_entry}
use sqlite_mem.Indexes.{
  IndexStore, all_same, any_same, or_none, check_unique, assert_mutable, insert_at, insert,
  lookup_ids,
}

-- Looking up behind a write: at the key, and elsewhere.
pub lookup-set_same : {V : Type 0} (k : Text) (v : V) (m : Map V) → lookup k (set k v m) ≡ some v
unfolding lookup set
lookup-set_same k v [] = ground (arith, text_eq_refl k)
lookup-set_same k v ((j, w) ∷ m) = ground (arith, lookup-set_same k v m)

text_eq_trans_false :
    (i j k : Text) → text_eq i k ≡ true → text_eq k j ≡ false → text_eq i j ≡ false
text_eq_trans_false i j k e f = rw (text_eq→eq i k e) f

pub lookup-set_other :
    {V : Type 0} (k j : Text) (v : V) (m : Map V)
    → text_eq k j ≡ false
    → lookup j (set k v m) ≡ lookup j m
unfolding lookup set
lookup-set_other k j v [] e = rw e refl
lookup-set_other k j v ((i, w) ∷ m) e = elim (Bool-cases (text_eq i k)) [
  | inl here ↦ rw (here, text_eq_trans_false i j k here e) refl
  | inr there ↦ rw (there, lookup-set_other k j v m e) refl
]

-- If every id is the rowid and it is not among them, there is none.
pub same_and_none :
    (rowid : ℤ) (ids : List ℤ)
    → all_same (some rowid) ids ≡ true
    → any_same rowid ids ≡ false
    → ids ≡ []
unfolding all_same any_same
same_and_none rowid [] a b = refl
same_and_none rowid (id ∷ ids) a b = ground (arith, a, b)

-- The rowid behind the ids, unless it is among them.
abbrev pub added : ℤ → List ℤ → List ℤ
added rowid ids = if any_same rowid ids then ids else ids ++ rowid ∷ []

module _ {R : Type 0} (to_text : R → Text) where
  pub entries-assert_mutable :
      (s t : IndexStore R) → assert_mutable to_text s ≡ ok t → t.entries ≡ s.entries
  entries-assert_mutable s t e = elim (Bool-cases s.frozen) [
    | inl frozen ↦ cc (rw frozen at e)
    | inr free ↦ elim (Bool-cases s.maps_shared) [
      | inl shared ↦ ap (λ u. u.entries) (sym (ok-injective _ _ (rw (free, shared) at e)))
      | inr own ↦ ap (λ u. u.entries) (sym (ok-injective _ _ (rw (free, own) at e)))
    ]
  ]

  insert_at_same :
      (key : Text) (values : List (SqlValue R)) (rowid : ℤ) (s : IndexStore R)
      → or_none (lookup key (insert_at to_text key values rowid s).entries)
        ≡ added rowid (or_none (lookup key s.entries))
  unfolding insert_at any_same
  insert_at_same key values rowid s = elim (Option-cases (lookup key s.entries)) [
    | inl new ↦ rw (new, insert_at, lookup-set_same key (rowid ∷ []) s.entries) refl
    | inr (ids, old) ↦ elim (Bool-cases (any_same rowid ids)) [
      | inl among ↦ rw (old, insert_at, among, old) refl
      | inr more ↦ rw (old, insert_at, more, lookup-set_same key (ids ++ rowid ∷ []) s.entries) refl
    ]
  ]

  insert_at_other :
      (key j : Text) (values : List (SqlValue R)) (rowid : ℤ) (s : IndexStore R)
      → text_eq key j ≡ false
      → lookup j (insert_at to_text key values rowid s).entries ≡ lookup j s.entries
  unfolding insert_at
  insert_at_other key j values rowid s e = elim (Option-cases (lookup key s.entries)) [
    | inl new ↦ rw (new, insert_at, lookup-set_other key j (rowid ∷ []) s.entries e) refl
    | inr (ids, old) ↦ elim (Bool-cases (any_same rowid ids)) [
      | inl among ↦ rw (old, insert_at, among) refl
      | inr more ↦
          rw (old, insert_at, more, lookup-set_other key j (ids ++ rowid ∷ []) s.entries e) refl
    ]
  ]

  -- A call of `insert` that returned has checked and inserted, on a store with the same entries.
  pub insert-cases :
      (values : List (SqlValue R)) (rowid : ℤ) (unique : Bool) (s s' : IndexStore R)
      → insert to_text values rowid unique s ≡ ok s'
      → (t : IndexStore R) × (t.entries ≡ s.entries)
        × ((if unique then check_unique to_text values (some rowid) t else ok tt) ≡ ok tt)
        × (insert_at to_text (serialize_entry to_text values) values rowid t ≡ s')
  unfolding insert
  insert-cases values rowid unique s s' e = elim (Result-cases (assert_mutable to_text s)) [
    | inr (x, fails) ↦ cc (rw (fails, insert) at e)
    | inl (t, free) ↦
        elim (Result-cases (if unique then check_unique to_text values (some rowid) t else ok tt)) [
          | inr (x, fails) ↦ cc (rw (free, insert, fails) at e)
          | inl (u, passes) ↦ (
            t,
            entries-assert_mutable s t free,
            passes,
            ok-injective _ _ (rw (free, insert, passes) at e),
          )
        ]
  ]

  pub lookup_ids_of_entries :
      (ws : List (SqlValue R)) (s : IndexStore R)
      → has_null ws ≡ false
      → lookup_ids to_text ws s ≡ or_none (lookup (serialize_entry to_text ws) s.entries)
  unfolding lookup_ids
  lookup_ids_of_entries ws s h = rw (h, lookup_ids) refl

  -- After `insert` has returned, the ids under a row without null are as they were, with the rowid
  -- added at the end if the row has the key of the inserted values and the rowid was not there.
  pub lookup_ids-insert :
      (values : List (SqlValue R)) (rowid : ℤ) (unique : Bool) (s s' : IndexStore R)
      → (ws : List (SqlValue R)) → insert to_text values rowid unique s ≡ ok s'
      → has_null ws ≡ false
      → lookup_ids to_text ws s' ≡ (
          if text_eq (serialize_entry to_text values) (serialize_entry to_text ws)
          then added rowid (lookup_ids to_text ws s)
          else lookup_ids to_text ws s)
  lookup_ids-insert values rowid unique s s' ws e h =
      let (t, same, passes, done) = insert-cases values rowid unique s s' e in
      let k = serialize_entry to_text values in
      let j = serialize_entry to_text ws in
      rw (lookup_ids_of_entries ws s' h, lookup_ids_of_entries ws s h, ← done, ← same)
        (elim (Bool-cases (text_eq k j)) [
          | inl here ↦ rw here (
              subst
                (λ u.
                  or_none (lookup u (insert_at to_text k values rowid t).entries)
                  ≡ added rowid (or_none (lookup u t.entries)))
                (text_eq→eq k j here) (insert_at_same k values rowid t))
          | inr there ↦ rw (there, insert_at_other k j values rowid t there) refl
        ])
