-- ===== src/Storage/Table/Rowids.antt =====
-- storage/table.ts: rowids, their order and their allocation.
use Prim.Native.Nat.{Ordering}
use sqlite_mem.Prelude.{
  ℕ, zero, suc, ◌-◌, ◌^◌, Text, codes, Bool, true, false, ◌||◌, List, [], ◌∷◌, ◌++◌, length,
  if◌then◌else◌,
}
use sqlite_mem.Prelude.Int.{ℤ, pos, negsuc, eqb_ℤ}
use sqlite_mem.Errors.{Result, ok, err, ◌>>=◌, SqliteError, other, datatype_mismatch}
use sqlite_mem.Types.Value.{SqlValue, integer, bigint}
use sqlite_mem.Types.Comparison.{compare_ℤ}
use sqlite_mem.Types.Conversion.{is_safe}
use sqlite_mem.Storage.Table.{ColumnInfo, Rows, Maximum, unknown, nothing, maximum, Table, has_row}

-- `incrementRowid`
abbrev pub increment_rowid : ℤ → ℤ
increment_rowid (pos n) = pos (suc n)
increment_rowid (negsuc zero) = pos 0
increment_rowid (negsuc (suc n)) = negsuc n

abbrev pub is_above : ℤ → ℤ → Bool
is_above a b = elim (compare_ℤ a b) [ Ordering.gt ↦ true | _ ↦ false ]

abbrev pub is_at_least : ℤ → ℤ → Bool
is_at_least a b = elim (compare_ℤ a b) [ Ordering.lt ↦ false | _ ↦ true ]

abbrev pub datatype_mismatch_error : Text → SqliteError
datatype_mismatch_error column = record {
  message = codes "datatype mismatch for INTEGER PRIMARY KEY column: " ++ column;
  category = datatype_mismatch;
  sqlite_code = "SQLITE_MISMATCH";
}

-- `asRowid`
abbrev pub as_rowid : {R : Type 0} → SqlValue R → Text → Result ℤ
as_rowid (bigint z) column = ok z
as_rowid (integer z) column = if is_safe z then ok z else err (datatype_mismatch_error column)
as_rowid value column = err (datatype_mismatch_error column)

-- A rowid as a value, as `canonicalRowid` makes it: a number if it is safe.
abbrev pub rowid_value : {R : Type 0} → ℤ → SqlValue R
rowid_value z = if is_safe z then integer z else bigint z

abbrev pub full : SqliteError
full = record {
  message = codes "database or disk is full";
  category = other;
  sqlite_code = "SQLITE_FULL";
}

-- The largest key, over the rows in their order.
unfoldable pub largest : {R : Type 0} → Maximum → Rows R → Maximum
largest m [] = m
largest (maximum m) ((k, row) ∷ rows) = largest (maximum (if is_above k m then k else m)) rows
largest unknown ((k, row) ∷ rows) = largest (maximum k) rows
largest nothing ((k, row) ∷ rows) = largest (maximum k) rows

-- The maximum that `allocateRowid` leaves in the cache.
unfoldable pub settled_maximum : {R : Type 0} → Maximum → Rows R → Maximum
unfolding largest
settled_maximum unknown rows = largest nothing rows
settled_maximum nothing rows = largest nothing rows
settled_maximum (maximum m) rows = maximum m

abbrev pub current_maximum : {R X : Type 0} → Table R X → Maximum
current_maximum t = settled_maximum t.maximum_rowid t.rows

abbrev pub next_of : Maximum → ℤ
next_of (maximum m) = increment_rowid m
next_of unknown = pos 1
next_of nothing = pos 1

abbrev pub max_signed : ℤ
max_signed = pos (2 ^ 63 - 1)

-- `while (this.hasRow(candidate))`, on fuel.
unfoldable pub free_rowid : {R X : Type 0} → ℕ → ℤ → Table R X → Result ℤ
free_rowid zero candidate t = err full
free_rowid (suc fuel) candidate t =
    let rest = free_rowid fuel (increment_rowid candidate) t in
    if has_row candidate t
    then (if is_at_least candidate max_signed then err full else rest)
    else if is_above candidate max_signed
    then err full
    else ok candidate

abbrev pub is_autoincrement : {X : Type 0} → List (ColumnInfo X) → Bool
is_autoincrement [] = false
is_autoincrement (c ∷ cs) = c.autoincrement || is_autoincrement cs

-- `allocateRowid`: the rowid, and the cached maximum.
unfoldable pub allocate_rowid : {R X : Type 0} → Table R X → Result (ℤ × Maximum)
unfolding settled_maximum free_rowid
allocate_rowid t =
    if is_autoincrement t.columns
    then (free_rowid (suc (length t.rows)) t.next_rowid t >>= λ id. ok (id, t.maximum_rowid))
    else ok (next_of (current_maximum t), current_maximum t)

-- `advanceNextRowid`
abbrev pub advanced_maximum : ℤ → Maximum → Maximum
advanced_maximum rowid unknown = unknown
advanced_maximum rowid nothing = maximum rowid
advanced_maximum rowid (maximum m) = maximum (if is_above rowid m then rowid else m)

abbrev pub advance_next_rowid : {R X : Type 0} → ℤ → Table R X → Table R X
advance_next_rowid rowid t = record t {
  maximum_rowid = advanced_maximum rowid t.maximum_rowid;
  next_rowid = if is_at_least rowid t.next_rowid then increment_rowid rowid else t.next_rowid;
}

-- The maximum without a row: unknown if it was that row's.
abbrev pub maximum_without : ℤ → Maximum → Maximum
maximum_without key (maximum m) = if eqb_ℤ key m then unknown else maximum m
maximum_without key m = m
