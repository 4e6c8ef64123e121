-- ===== src/Indexes/Runs.antt =====
-- A unique index of two columns, with naturals in place of JavaScript's other numbers.
use sqlite_mem.Prelude.{
  ℕ, codes, true, false, some, List, [], ◌∷◌, map, if◌then◌else◌, text_eq, ◌≡◌, refl, arith,
}
use sqlite_mem.Prelude.Int.{pos}
use sqlite_mem.Errors.{Result, ok, err}
use sqlite_mem.Types.Value.{SqlValue, integer, text, json_text}
use sqlite_mem.Indexes.Keys.{nat_text, part, serialize_entry}
use sqlite_mem.Indexes.Keys.Injective.{serialize_entry-injective}
use sqlite_mem.Indexes.Insertion.{added, lookup_ids-insert}
use sqlite_mem.Indexes.Unique.{IsUnique, insert-IsUnique}
use sqlite_mem.Indexes.Removal.{lookup_ids-remove}
use sqlite_mem.Indexes.Undo.{remove-insert}
use sqlite_mem.Indexes.{IndexStore, Removed, new_index, insert, remove, without, lookup_ids}

abbrev row : List (SqlValue ℕ)
row = text (codes "a|1:b") ∷ integer (pos 12) ∷ []

abbrev index : IndexStore ℕ
index = new_index (codes "users_name")

abbrev stored : Result (IndexStore ℕ) → IndexStore ℕ
stored (ok s) = s
stored (err e) = new_index []

abbrev one_row : IndexStore ℕ
one_row = stored (insert nat_text row (pos 7) true index)

key_of_row : serialize_entry nat_text row ≡ codes "7:t:a|1:b|4:n:12"
unfolding serialize_entry
key_of_row = refl

found : lookup_ids nat_text row one_row ≡ pos 7 ∷ []
unfolding insert lookup_ids text_eq
found = refl

new_index-IsUnique : IsUnique nat_text index
unfolding lookup_ids
new_index-IsUnique = record { few = λ ws. ground arith }

serialize_entry-injective_example :
    map (part nat_text) (text (codes "x") ∷ []) ≡ map (part nat_text) (json_text (codes "x") ∷ [])
unfolding serialize_entry
serialize_entry-injective_example =
    serialize_entry-injective nat_text (text (codes "x") ∷ []) (json_text (codes "x") ∷ []) refl

lookup_ids-insert_example : lookup_ids nat_text row one_row ≡ (
    if text_eq (serialize_entry nat_text row) (serialize_entry nat_text row)
    then added (pos 7) (lookup_ids nat_text row index)
    else lookup_ids nat_text row index)
unfolding insert
lookup_ids-insert_example = lookup_ids-insert nat_text row (pos 7) true index one_row row refl refl

insert-IsUnique_example : IsUnique nat_text one_row
unfolding insert
insert-IsUnique_example = insert-IsUnique nat_text row (pos 7) index one_row new_index-IsUnique refl

abbrev removed : Result (Removed ℕ) → Removed ℕ
removed (ok r) = r
removed (err e) = record { found = false; store = index }

abbrev emptied : Removed ℕ
emptied = removed (remove nat_text row (some (pos 7)) one_row)

lookup_ids-remove_example : lookup_ids nat_text row emptied.store ≡ (
    if text_eq (serialize_entry nat_text row) (serialize_entry nat_text row)
    then without (pos 7) (lookup_ids nat_text row one_row)
    else lookup_ids nat_text row one_row)
unfolding remove insert
lookup_ids-remove_example =
    lookup_ids-remove nat_text row (pos 7) one_row emptied row (refl, tt) refl refl

remove-insert_example : lookup_ids nat_text row emptied.store ≡ lookup_ids nat_text row index
unfolding remove insert lookup_ids
remove-insert_example =
    remove-insert nat_text row (pos 7) true index one_row emptied row tt refl refl refl refl
