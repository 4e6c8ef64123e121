-- ===== src/Indexes/Removal.antt =====
-- Removing a rowid from an index: what is looked up afterwards.
use sqlite_mem.Prelude.{
  Text, true, false, none, some, List, [], ◌∷◌, if◌then◌else◌, text_eq, text_eq→eq, ◌≡◌, refl, sym,
  arith, inl, inr, Bool-cases, Option-cases,
}
use mathlib.Core.Path.{subst}
use sqlite_mem.Prelude.Int.{ℤ}
use sqlite_mem.Errors.{ok, Result-cases, ok-injective}
use sqlite_mem.Storage.Cow.Maps.{Map, lookup, delete}
use sqlite_mem.Types.Value.{SqlValue}
use sqlite_mem.Indexes.Keys.{has_null, serialize_entry}
use sqlite_mem.Indexes.{
  IndexStore, Removed, any_same, without, is_nil, or_none, remove_id, remove_at, remove,
  assert_mutable, lookup_ids,
}
use sqlite_mem.Indexes.Insertion.{
  lookup-set_same, lookup-set_other, entries-assert_mutable, lookup_ids_of_entries,
}

-- No key stands twice, as in a JavaScript map.
abbrev pub IsMap : {V : Type 0} → Map V → Type 0
IsMap [] = Unit
IsMap ((k, v) ∷ m) = (lookup k m ≡ none) × IsMap m

lookup-delete_same : {V : Type 0} (k : Text) (m : Map V) → IsMap m → lookup k (delete k m) ≡ none
unfolding lookup delete
lookup-delete_same k [] h = refl
lookup-delete_same k ((j, v) ∷ m) (n, h) = elim (Bool-cases (text_eq j k)) [
  | inl here ↦ rw here (subst (λ u. lookup u m ≡ none) (text_eq→eq j k here) n)
  | inr there ↦ rw (there, there) (lookup-delete_same k m h)
]

lookup-delete_other :
    {V : Type 0} (k j : Text) (m : Map V) → text_eq k j ≡ false → lookup j (delete k m) ≡ lookup j m
unfolding lookup delete
lookup-delete_other k j [] e = refl
lookup-delete_other k j ((i, v) ∷ m) e = elim (Bool-cases (text_eq i k)) [
  | inl here ↦ rw (here, subst (λ u. text_eq u j ≡ false) (sym (text_eq→eq i k here)) e) refl
  | inr there ↦ rw (there, lookup-delete_other k j m e) refl
]

-- What is not there is not taken away.
without_none : (rowid : ℤ) (ids : List ℤ) → any_same rowid ids ≡ false → without rowid ids ≡ ids
unfolding any_same without
without_none rowid [] e = refl
without_none rowid (id ∷ ids) e = ground (arith, e, without_none rowid ids)

is_nil_iff : (ids : List ℤ) → is_nil ids ≡ true → ids ≡ []
is_nil_iff [] e = refl
is_nil_iff (x ∷ xs) e = cc

module _ {R : Type 0} where
  remove_id_same :
      (key : Text) (rowid : ℤ) (ids : List ℤ) (s : IndexStore R)
      → IsMap s.entries
      → lookup key s.entries ≡ some ids
      → or_none (lookup key (remove_id key rowid ids s).store.entries) ≡ without rowid ids
  unfolding remove_id
  remove_id_same key rowid ids s h e = elim (Bool-cases (any_same rowid ids)) [
    | inr absent ↦ rw (absent, remove_id, e) (sym (without_none rowid ids absent))
    | inl among ↦ elim (Bool-cases (is_nil (without rowid ids))) [
      | inl last ↦
          rw (among, remove_id, last, lookup-delete_same key s.entries h)
            (sym (is_nil_iff (without rowid ids) last))
      | inr more ↦
          rw (among, remove_id, more, lookup-set_same key (without rowid ids) s.entries) refl
    ]
  ]

  remove_id_other :
      (key j : Text) (rowid : ℤ) (ids : List ℤ) (s : IndexStore R)
      → text_eq key j ≡ false
      → lookup j (remove_id key rowid ids s).store.entries ≡ lookup j s.entries
  unfolding remove_id
  remove_id_other key j rowid ids s e = elim (Bool-cases (any_same rowid ids)) [
    | inr absent ↦ rw (absent, remove_id) refl
    | inl among ↦ elim (Bool-cases (is_nil (without rowid ids))) [
      | inl last ↦ rw (among, remove_id, last, lookup-delete_other key j s.entries e) refl
      | inr more ↦
          rw (among, remove_id, more, lookup-set_other key j (without rowid ids) s.entries e) refl
    ]
  ]

module _ {R : Type 0} (to_text : R → Text) where
  remove_at_same :
      (key : Text) (rowid : ℤ) (s : IndexStore R)
      → IsMap s.entries
      → or_none (lookup key (remove_at to_text key (some rowid) s).store.entries)
        ≡ without rowid (or_none (lookup key s.entries))
  unfolding remove_at without
  remove_at_same key rowid s h = elim (Option-cases (lookup key s.entries)) [
    | inl missing ↦ rw (missing, remove_at, missing) refl
    | inr (ids, there) ↦ rw (there, remove_at) (remove_id_same key rowid ids s h there)
  ]

  remove_at_other :
      (key j : Text) (rowid : ℤ) (s : IndexStore R)
      → text_eq key j ≡ false
      → lookup j (remove_at to_text key (some rowid) s).store.entries ≡ lookup j s.entries
  unfolding remove_at
  remove_at_other key j rowid s e = elim (Option-cases (lookup key s.entries)) [
    | inl missing ↦ rw (missing, remove_at) refl
    | inr (ids, there) ↦ rw (there, remove_at) (remove_id_other key j rowid ids s e)
  ]

  -- A call of `remove` that returned has removed, from a store with the same entries.
  remove-cases :
      (values : List (SqlValue R)) (rowid : ℤ) (s : IndexStore R) (r : Removed R)
      → remove to_text values (some rowid) s ≡ ok r
      → (t : IndexStore R) × (t.entries ≡ s.entries)
        × (remove_at to_text (serialize_entry to_text values) (some rowid) t ≡ r)
  unfolding remove
  remove-cases values rowid s r e = elim (Result-cases (assert_mutable to_text s)) [
    | inr (x, fails) ↦ cc (rw (fails, remove) at e)
    | inl (t, free) ↦
        (t, entries-assert_mutable to_text s t free, ok-injective _ _ (rw (free, remove) at e))
  ]

  -- After `remove` of a rowid has returned, the ids under a row without null are as they were, without
  -- the rowid where it stood first, if the row has the key of the given values.
  pub lookup_ids-remove :
      (values : List (SqlValue R)) (rowid : ℤ) (s : IndexStore R) (r : Removed R)
      → (ws : List (SqlValue R)) → IsMap s.entries
      → remove to_text values (some rowid) s ≡ ok r
      → has_null ws ≡ false
      → lookup_ids to_text ws r.store ≡ (
          if text_eq (serialize_entry to_text values) (serialize_entry to_text ws)
          then without rowid (lookup_ids to_text ws s)
          else lookup_ids to_text ws s)
  lookup_ids-remove values rowid s r ws m e h =
      let (t, same, done) = remove-cases values rowid s r e in
      let k = serialize_entry to_text values in
      let j = serialize_entry to_text ws in
      rw
        (
          lookup_ids_of_entries to_text ws r.store h,
          lookup_ids_of_entries to_text ws s h,
          ← done,
          ← same,
        )
        (elim (Bool-cases (text_eq k j)) [
          | inl here ↦ rw here (
              subst
                (λ u.
                  or_none (lookup u (remove_at to_text k (some rowid) t).store.entries)
                  ≡ without rowid (or_none (lookup u t.entries)))
                (text_eq→eq k j here) (remove_at_same k rowid t (rw same m)))
          | inr there ↦ rw (there, remove_at_other k j rowid t there) refl
        ])
