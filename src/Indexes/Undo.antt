-- ===== src/Indexes/Undo.antt =====
-- Removing what was inserted.
use sqlite_mem.Prelude.{
  Text, Bool, true, false, some, List, [], ◌∷◌, ◌++◌, text_eq, text_eq→eq, text_eq_refl, ◌≡◌, refl,
  ◌∙◌, arith, inl, inr, Bool-cases, Option-cases,
}
use mathlib.Core.Path.{subst}
use sqlite_mem.Prelude.Int.{ℤ, eqb_ℤ_refl}
use sqlite_mem.Errors.{ok}
use sqlite_mem.Storage.Cow.Maps.{Map, lookup, set}
use sqlite_mem.Types.Value.{SqlValue}
use sqlite_mem.Indexes.Keys.{has_null, serialize_entry}
use sqlite_mem.Indexes.{
  IndexStore, Removed, any_same, without, insert_at, insert, remove, lookup_ids,
}
use sqlite_mem.Indexes.Insertion.{lookup-set_other, insert-cases, lookup_ids-insert}
use sqlite_mem.Indexes.Removal.{IsMap, lookup_ids-remove}

without-append :
    (rowid : ℤ) (ids : List ℤ)
    → any_same rowid ids ≡ false
    → without rowid (ids ++ rowid ∷ []) ≡ ids
unfolding any_same without
without-append rowid [] e = rw (eqb_ℤ_refl rowid) refl
without-append rowid (id ∷ ids) e = ground (arith, e, without-append rowid ids)

-- The test of two texts that are not the same fails in either order.
text_eq_flip : (s t : Text) → text_eq s t ≡ false → text_eq t s ≡ false
text_eq_flip s t e = elim (Bool-cases (text_eq t s)) [
  | inl same ↦ cc (e, subst (λ u. text_eq u t ≡ true) (text_eq→eq t s same) (text_eq_refl t))
  | inr apart ↦ apart
]

set-IsMap : {V : Type 0} (k : Text) (v : V) (m : Map V) → IsMap m → IsMap (set k v m)
unfolding lookup set
set-IsMap k v [] h = (refl, tt)
set-IsMap k v ((j, w) ∷ m) (n, h) = elim (Bool-cases (text_eq j k)) [
  | inl here ↦ rw here (n, h)
  | inr there ↦ rw there (lookup-set_other k j v m (text_eq_flip j k there) ∙ n, set-IsMap k v m h)
]

module _ {R : Type 0} (to_text : R → Text) where
  insert_at-IsMap :
      (key : Text) (values : List (SqlValue R)) (rowid : ℤ) (s : IndexStore R)
      → IsMap s.entries
      → IsMap (insert_at to_text key values rowid s).entries
  unfolding insert_at
  insert_at-IsMap key values rowid s h = elim (Option-cases (lookup key s.entries)) [
    | inl new ↦ rw (new, insert_at) (set-IsMap key (rowid ∷ []) s.entries h)
    | inr (ids, old) ↦ elim (Bool-cases (any_same rowid ids)) [
      | inl among ↦ rw (old, insert_at, among) h
      | inr more ↦ rw (old, insert_at, more) (set-IsMap key (ids ++ rowid ∷ []) s.entries h)
    ]
  ]

  insert-IsMap :
      (values : List (SqlValue R)) (rowid : ℤ) (unique : Bool) (s s' : IndexStore R)
      → IsMap s.entries
      → insert to_text values rowid unique s ≡ ok s'
      → IsMap s'.entries
  insert-IsMap values rowid unique s s' h e =
      let (t, same, passes, done) = insert-cases to_text values rowid unique s s' e in
      rw (← done) (insert_at-IsMap (serialize_entry to_text values) values rowid t (rw same h))

  -- Inserting a rowid that does not stand under a row's key, and then removing it: under each row
  -- without null the ids are as they were.
  pub remove-insert :
      (values : List (SqlValue R)) (rowid : ℤ) (unique : Bool) (s s' : IndexStore R)
      → (r : Removed R) (ws : List (SqlValue R)) → IsMap s.entries
      → insert to_text values rowid unique s ≡ ok s'
      → remove to_text values (some rowid) s' ≡ ok r
      → has_null ws ≡ false
      → any_same rowid (lookup_ids to_text ws s) ≡ false
      → lookup_ids to_text ws r.store ≡ lookup_ids to_text ws s
  remove-insert values rowid unique s s' r ws m e f h new =
      rw
        (
          lookup_ids-remove to_text values rowid s' r ws (insert-IsMap values rowid unique s s' m e)
              f h,
          lookup_ids-insert to_text values rowid unique s s' ws e h,
        )
        (elim (Bool-cases (text_eq (serialize_entry to_text values) (serialize_entry to_text ws))) [
          | inl here ↦ rw (here, new) (without-append rowid (lookup_ids to_text ws s) new)
          | inr there ↦ rw there refl
        ])
