-- ===== src/Storage/Table/Runs.antt =====
-- storage/table.ts: runs of insertion, update and deletion, and the theorems at tables they make.
use sqlite_mem.Prelude.{
  String, ℕ, ◌≡◌, refl, Text, codes, true, false, Option, none, some, [], ◌∷◌, ◌++◌, ◌^◌, ◌-◌, ◌⊎◌,
  to_upper,
}
use sqlite_mem.Prelude.Int.{ℤ, pos, eqb_ℤ}
use sqlite_mem.Errors.{Result, ok, err}
use sqlite_mem.Types.Value.{integer, text, text_affinity, integer_affinity}
use sqlite_mem.Types.Evens.{evens}
use sqlite_mem.Indexes.Keys.{nat_text}
use sqlite_mem.Storage.Table.{
  ColumnInfo, Row, Table, TableOptions, new_table, get, has_row, Maximum, maximum,
}
use sqlite_mem.Storage.Table.Columns.{RowValues, cells, named}
use sqlite_mem.Storage.Table.Rowids.{
  allocate_rowid, is_at_least, is_above, is_autoincrement, max_signed, full,
}
use sqlite_mem.Storage.Table.ClusterKeys.{join_nul, serialize_pk_component}
use sqlite_mem.Storage.Table.Editing.{insert, update, delete_rowid}
use sqlite_mem.Storage.Table.Invariant.{IsNumberedTable}
use sqlite_mem.Storage.Table.Edits.{
  IsReached, created, inserts, updates, deletes, reached-IsNumberedTable, insert-get,
  delete_rowid-get, update-get, allocate_rowid_answers,
}

abbrev plain : Text → Text → ColumnInfo ℕ
plain name type_name = record {
  name = name;
  type_name = some type_name;
  affinity = text_affinity;
  not_null = false;
  primary_key = false;
  autoincrement = false;
  default_expr = none;
  unique = false;
  collate = none;
  generated = none;
}

abbrev id_column : ColumnInfo ℕ
id_column = record (plain (codes "id") (codes "INTEGER")) {
  affinity = integer_affinity;
  primary_key = true;
}

abbrev no_options : TableOptions
no_options = record {
  constraints = [];
  indexes = [];
  original_sql = none;
  without_rowid = false;
  strict = false;
}

abbrev empty : Table ℕ ℕ
empty = new_table (codes "notes") (id_column ∷ plain (codes "note") (codes "TEXT") ∷ []) no_options

abbrev note : Text → RowValues ℕ
note s = named ((codes "Note", text s) ∷ [])

abbrev add : Option ℤ → String → Table ℕ ℕ → Result (ℤ × Table ℕ ℕ)
add supplied s t = insert evens nat_text to_upper supplied (note (codes s)) false false t

abbrev first_row : Row ℕ
first_row = record { rowid = pos 1; values = integer (pos 1) ∷ text (codes "a") ∷ [] }

abbrev second_row : Row ℕ
second_row = record { rowid = pos 5; values = integer (pos 5) ∷ text (codes "b") ∷ [] }

abbrev one : Table ℕ ℕ
one = record empty {
  rows = (pos 1, first_row) ∷ [];
  next_rowid = pos 2;
  maximum_rowid = maximum (pos 1);
}

abbrev two : Table ℕ ℕ
two = record empty {
  rows = (pos 1, first_row) ∷ (pos 5, second_row) ∷ [];
  next_rowid = pos 6;
  maximum_rowid = maximum (pos 5);
}

-- The row at 1 goes to 8, by its alias column.
abbrev moving : RowValues ℕ
moving = cells (integer (pos 8) ∷ text (codes "c") ∷ [])

abbrev moved_row : Row ℕ
moved_row = record { rowid = pos 8; values = integer (pos 8) ∷ text (codes "c") ∷ [] }

abbrev three : Table ℕ ℕ
three = record empty {
  rows = (pos 5, second_row) ∷ (pos 8, moved_row) ∷ [];
  next_rowid = pos 9;
  maximum_rowid = maximum (pos 8);
}

abbrev four : Table ℕ ℕ
four = record empty {
  rows = (pos 8, moved_row) ∷ [];
  next_rowid = pos 9;
  maximum_rowid = maximum (pos 8);
}

one_run : add none "a" empty ≡ ok (pos 1, one)
unfolding insert
one_run = refl

two_run : add (some (pos 5)) "b" one ≡ ok (pos 5, two)
unfolding insert
two_run = refl

three_run : update evens nat_text to_upper (pos 1) moving two ≡ ok (some moved_row, three)
unfolding update
three_run = refl

four_run : delete_rowid evens nat_text to_upper (pos 5) three ≡ ok (true, four)
unfolding delete_rowid
four_run = refl

empty-IsReached : IsReached evens nat_text to_upper empty
empty-IsReached =
    created (codes "notes") (id_column ∷ plain (codes "note") (codes "TEXT") ∷ []) no_options

one-IsReached : IsReached evens nat_text to_upper one
one-IsReached =
    inserts empty one none (note (codes "a")) false false (pos 1) empty-IsReached one_run

two-IsReached : IsReached evens nat_text to_upper two
two-IsReached =
    inserts one two (some (pos 5)) (note (codes "b")) false false (pos 5) one-IsReached two_run

three-IsReached : IsReached evens nat_text to_upper three
three-IsReached = updates two three (pos 1) moving (some moved_row) two-IsReached three_run

four-IsReached : IsReached evens nat_text to_upper four
four-IsReached = deletes three four (pos 5) true three-IsReached four_run

reached-IsNumberedTable_example : IsNumberedTable four
reached-IsNumberedTable_example =
    reached-IsNumberedTable evens nat_text to_upper four four-IsReached

insert-get_example :
    (get (pos 5) one ≡ none)
    × ((row : Row ℕ) × (row.rowid ≡ pos 5) × (get (pos 5) two ≡ some row))
    × ((k : ℤ) → eqb_ℤ (pos 5) k ≡ false → get k two ≡ get k one)
insert-get_example =
    insert-get evens nat_text to_upper (some (pos 5)) (note (codes "b")) false false one two (pos 5)
      one-IsReached two_run

delete_rowid-get_example :
    (true ≡ has_row (pos 5) three)
    × (get (pos 5) four ≡ none)
    × ((k : ℤ) → eqb_ℤ (pos 5) k ≡ false → get k four ≡ get k three)
delete_rowid-get_example =
    delete_rowid-get evens nat_text to_upper (pos 5) three true four three-IsReached four_run

update-get_example :
    ((get (pos 1) two ≡ none) × (some moved_row ≡ none) × (three ≡ two))
    ⊎ ((row : Row ℕ) × (some moved_row ≡ some row)
        × (has_row (pos 1) two ≡ true)
        × (get row.rowid three ≡ some row)
        × (eqb_ℤ row.rowid (pos 1) ≡ false
            → (get row.rowid two ≡ none) × (get (pos 1) three ≡ none))
        × ((k : ℤ) → eqb_ℤ (pos 1) k ≡ false → eqb_ℤ row.rowid k ≡ false → get k three ≡ get k two))
update-get_example =
    update-get evens nat_text to_upper (pos 1) moving two (some moved_row) three two-IsReached
      three_run

allocate_rowid_answers_example :
    ((id : ℤ) × (m : Maximum) × (allocate_rowid four ≡ ok (id, m))
      × (get id four ≡ none)
      × ((k : ℤ) (row : Row ℕ) → get k four ≡ some row → is_at_least k id ≡ false))
    ⊎ ((is_autoincrement four.columns ≡ true)
        × (is_above four.next_rowid max_signed ≡ true)
        × (allocate_rowid four ≡ err full))
allocate_rowid_answers_example = allocate_rowid_answers evens nat_text to_upper four four-IsReached

-- Behind the row at the last rowid, allocation goes on to 2^63.
abbrev last : Table ℕ ℕ
last = record empty {
  rows =
      (
        max_signed,
        record { rowid = max_signed; values = integer max_signed ∷ text (codes "z") ∷ [] },
      )
      ∷ [];
  next_rowid = pos (2 ^ 63);
  maximum_rowid = maximum max_signed;
}

behind_last : allocate_rowid last ≡ ok (pos (2 ^ 63), maximum (pos (2 ^ 63 - 1)))
unfolding allocate_rowid
behind_last = refl

-- Two keys of two texts each that come out as one.
joined_alike :
    join_nul (
      serialize_pk_component evens (text (codes "p" ++ (0 ∷ 0 ∷ codes "s:q")))
      ∷ serialize_pk_component evens (text (codes "r"))
      ∷ [])
    ≡ join_nul (
        serialize_pk_component evens (text (codes "p"))
        ∷ serialize_pk_component evens (text (codes "q" ++ (0 ∷ 0 ∷ codes "s:r")))
        ∷ [])
unfolding serialize_pk_component
joined_alike = refl
