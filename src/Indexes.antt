-- ===== src/Indexes.antt =====
-- indexes/index.ts: `IndexStore`, the rowids of a table's rows under the values of an index's columns.
-- The searches by prefix and by range and the sorted snapshots, over the order of SQL values, are left
-- out. The maps of a cloned store are values, so that forking them changes the flag alone.
pub mod Keys
pub mod Insertion
pub mod Unique
pub mod Removal
pub mod Undo
pub mod Search
mod Runs
use sqlite_mem.Prelude.{
  ℕ, Text, codes, Bool, true, false, ◌||◌, Option, none, some, List, [], ◌∷◌, ◌++◌, length,
  if◌then◌else◌,
}
use sqlite_mem.Prelude.Int.{ℤ, eqb_ℤ}
use sqlite_mem.Errors.{Result, ok, err, ◌>>=◌, SqliteError, sqlite_error, constraint_unique, other}
use sqlite_mem.Storage.Cow.Maps.{Map, lookup, set, delete}
use sqlite_mem.Types.Value.{SqlValue}
use Keys.{has_null, serialize_entry}

-- A rowid is a number or a BigInt, which are compared by value.
pub record IndexStore (R : Type 0) : Type 0 where
  pub name : Text
  pub entries : Map (List ℤ)
  pub key_values : Map (List (SqlValue R))
  pub sorted_keys : Option (List Text)
  pub maps_shared : Bool
  pub frozen : Bool

-- The constructor, without entries.
abbrev pub new_index : {R : Type 0} → Text → IndexStore R
new_index name = record {
  name = name;
  entries = [];
  key_values = [];
  sorted_keys = none;
  maps_shared = false;
  frozen = false;
}

-- Is every id the rowid? Without a rowid none is.
unfoldable pub all_same : Option ℤ → List ℤ → Bool
all_same rowid [] = true
all_same none (id ∷ ids) = false
all_same (some rowid) (id ∷ ids) =
    let rest = all_same (some rowid) ids in if eqb_ℤ id rowid then rest else false

-- Does the rowid stand among the ids?
unfoldable pub any_same : ℤ → List ℤ → Bool
any_same rowid [] = false
any_same rowid (id ∷ ids) = eqb_ℤ id rowid || any_same rowid ids

-- existing.splice(index, 1), at the first id that is the rowid.
unfoldable pub without : ℤ → List ℤ → List ℤ
without rowid [] = []
without rowid (id ∷ ids) = let rest = without rowid ids in if eqb_ℤ id rowid then ids else id ∷ rest

abbrev pub unique_failed : Text → SqliteError
unique_failed name = record {
  message = codes "UNIQUE constraint failed: " ++ name;
  category = constraint_unique;
  sqlite_code = "SQLITE_CONSTRAINT_UNIQUE";
}

abbrev pub or_none : Option (List ℤ) → List ℤ
or_none none = []
or_none (some ids) = ids

-- What `remove` returns, and the store behind it.
pub record Removed (R : Type 0) : Type 0 where
  pub found : Bool
  pub store : IndexStore R

abbrev pub drop_key : {R : Type 0} → Text → IndexStore R → IndexStore R
drop_key key s = record s {
  entries = delete key s.entries;
  key_values = delete key s.key_values;
  sorted_keys = none;
}

abbrev pub is_nil : List ℤ → Bool
is_nil [] = true
is_nil (x ∷ xs) = false

-- `remove` of one rowid from the ids under a key: the key goes with its last id.
unfoldable pub remove_id : {R : Type 0} → Text → ℤ → List ℤ → IndexStore R → Removed R
unfolding any_same without set
remove_id key rowid existing s =
    let kept = without rowid existing in
    if any_same rowid existing
    then record {
      found = true;
      store = if is_nil kept then drop_key key s else record s { entries = set key kept s.entries };
    }
    else record { found = false; store = s }

module _ {R : Type 0} (to_text : R → Text) where
  -- `checkUnique`: a row with a null conflicts with none.
  unfoldable pub check_unique : List (SqlValue R) → Option ℤ → IndexStore R → Result (Unit {0})
  unfolding lookup serialize_entry all_same
  check_unique values rowid s =
      if has_null values then ok tt else elim (lookup (serialize_entry to_text values) s.entries) [
        | none ↦ ok tt
        | some existing ↦ if all_same rowid existing then ok tt else err (unique_failed s.name)
      ]

  -- `assertMutable`, with `forkMaps`.
  abbrev pub assert_mutable : IndexStore R → Result (IndexStore R)
  assert_mutable s =
      if s.frozen
      then err (sqlite_error (codes "internal: cannot mutate a frozen index") other)
      else ok (if s.maps_shared then record s { maps_shared = false; sorted_keys = none } else s)

  -- `insert`, behind the checks.
  unfoldable pub insert_at : Text → List (SqlValue R) → ℤ → IndexStore R → IndexStore R
  unfolding lookup set any_same
  insert_at key values rowid s = elim (lookup key s.entries) [
    | none ↦ record s {
      entries = set key (rowid ∷ []) s.entries;
      key_values = set key values s.key_values;
      sorted_keys = none;
    }
    | some existing ↦
        if any_same rowid existing
        then s
        else record s { entries = set key (existing ++ rowid ∷ []) s.entries }
  ]

  -- `insert`
  unfoldable pub insert : List (SqlValue R) → ℤ → Bool → IndexStore R → Result (IndexStore R)
  unfolding check_unique insert_at serialize_entry
  insert values rowid unique s = assert_mutable s >>= λ t.
      (if unique then check_unique values (some rowid) t else ok tt) >>= λ u.
      ok (insert_at (serialize_entry to_text values) values rowid t)

  -- `lookup`: a null matches nothing.
  unfoldable pub lookup_ids : List (SqlValue R) → IndexStore R → List ℤ
  unfolding lookup serialize_entry
  lookup_ids values s =
      if has_null values then [] else or_none (lookup (serialize_entry to_text values) s.entries)

  -- `remove`, behind the check: all ids under the key, or one.
  unfoldable pub remove_at : Text → Option ℤ → IndexStore R → Removed R
  unfolding lookup remove_id
  remove_at key rowid s = elim (lookup key s.entries) [
    | none ↦ record { found = false; store = s }
    | some existing ↦ elim rowid [
      | none ↦ record { found = true; store = drop_key key s }
      | some id ↦ remove_id key id existing s
    ]
  ]

  unfoldable pub remove : List (SqlValue R) → Option ℤ → IndexStore R → Result (Removed R)
  unfolding remove_at serialize_entry
  remove values rowid s =
      assert_mutable s >>= λ t. ok (remove_at (serialize_entry to_text values) rowid t)

  -- `clear`
  unfoldable pub clear : IndexStore R → Result (IndexStore R)
  clear s =
      assert_mutable s >>= λ t. ok (record t { entries = []; key_values = []; sorted_keys = none })

-- `clone`, `freeze`, `rememberKeyValues` and `size`
abbrev pub clone : {R : Type 0} → IndexStore R → IndexStore R
clone s = record s { maps_shared = true; frozen = false }

abbrev pub freeze : {R : Type 0} → IndexStore R → IndexStore R
freeze s = record s { frozen = true }

unfoldable pub remember_key_values :
    {R : Type 0} → Text → List (SqlValue R) → IndexStore R → IndexStore R
unfolding set
remember_key_values key values s = record s { key_values = set key values s.key_values }

abbrev pub size : {R : Type 0} → IndexStore R → ℕ
size s = length s.entries

-- `keyValuesFor`
abbrev pub or_no_values : {R : Type 0} → Option (List (SqlValue R)) → List (SqlValue R)
or_no_values none = []
or_no_values (some values) = values

unfoldable pub key_values_for : {R : Type 0} → Text → IndexStore R → List (SqlValue R)
unfolding lookup
key_values_for key s = or_no_values (lookup key s.key_values)
