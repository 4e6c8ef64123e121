-- ===== src/Indexes/Search.antt =====
-- indexes/index.ts: the keys in the order of their values, and the searches by prefix and by range.
pub mod Points
pub mod Sorting
pub mod Scanning
pub mod Heads
pub mod Ranges
pub mod Lookup
mod Runs
use Prim.Native.Nat.{compare, Ordering}
use sqlite_mem.Prelude.{
  ℕ, zero, suc, ◌+◌, ◌-◌, ◌/◌, ◌%◌, ◌^◌, Text, Bool, true, false, not, ◌&&◌, Option, none, some,
  List, [], ◌∷◌, ◌++◌, map, length, get_elem?, take, drop, if◌then◌else◌, text_eq, ltb,
}
use sqlite_mem.Prelude.Int.{ℤ}
use sqlite_mem.Storage.Cow.Maps.{Map, lookup}
use sqlite_mem.Types.Value.{
  SqlValue, null, integer, bigint, float, real, text, json_text, blob, is_null,
}
use sqlite_mem.Types.Comparison.{Doubles, compare_sql, compare_units}
use sqlite_mem.Indexes.Keys.{has_null, serialize_entry}
use sqlite_mem.Indexes.{IndexStore, or_none, or_no_values}

abbrev pub keys_of : {V : Type 0} → Map V → List Text
keys_of [] = []
keys_of ((k, v) ∷ m) = k ∷ keys_of m

-- A result of `compareSql`, with 0 for null.
abbrev pub or_equal : Option Ordering → Ordering
or_equal none = Ordering.eq
or_equal (some o) = o

abbrev pub is_lt : Ordering → Bool
is_lt Ordering.lt = true
is_lt _ = false

abbrev pub is_gt : Ordering → Bool
is_gt Ordering.gt = true
is_gt _ = false

-- Array.prototype.sort, which is stable: a key goes before those that are not below it.
unfoldable pub insert_key : (Text → Text → Ordering) → Text → List Text → List Text
insert_key cmp k [] = k ∷ []
insert_key cmp k (j ∷ js) =
    let rest = insert_key cmp k js in if is_gt (cmp k j) then j ∷ rest else k ∷ j ∷ js

unfoldable pub sort_keys : (Text → Text → Ordering) → List Text → List Text
unfolding insert_key
sort_keys cmp [] = []
sort_keys cmp (k ∷ ks) = insert_key cmp k (sort_keys cmp ks)

-- What an index is asked for: `op` with its bounds.
pub data RangeOp : Type 0 where
  above at_least below at_most between : RangeOp

-- `while (lo < hi)` over the keys, on fuel: the first key that is not before what is looked for. The
-- middle is taken by `>>>`, on 32 bits. Past the end there is no value, which counts as before.
abbrev pub before_at : (Text → Bool) → List Text → ℕ → Bool
before_at before keys i = elim (get_elem? keys i) [ none ↦ true | some key ↦ before key ]

abbrev pub middle : ℕ → ℕ → ℕ
middle lo hi = (lo + hi) % 2 ^ 32 / 2

unfoldable pub find_point : (Text → Bool) → List Text → ℕ → ℕ → ℕ → ℕ
find_point before keys zero lo hi = lo
find_point before keys (suc fuel) lo hi =
    let mid = middle lo hi in
    let up = find_point before keys fuel (mid + 1) hi in
    let down = find_point before keys fuel lo mid in
    if ltb lo hi then (if before_at before keys mid then up else down) else lo

-- With the length for fuel, which each round lowers.
unfoldable pub partition_point : (Text → Bool) → List Text → ℕ
unfolding find_point
partition_point before keys = find_point before keys (suc (length keys)) 0 (length keys)

-- The rowids of the keys that pass a test, one key after another.
unfoldable pub collect : (Text → Bool) → Map (List ℤ) → List Text → List ℤ
unfolding lookup
collect test entries [] = []
collect test entries (key ∷ keys) =
    let rest = collect test entries keys in
    if test key then or_none (lookup key entries) ++ rest else rest

abbrev pub then_by : Ordering → Ordering → Ordering
then_by Ordering.eq rest = rest
then_by first rest = first

-- keyValues.get(key)?.[0], where it is neither undefined nor null.
abbrev pub head_value : {R : Type 0} → List (SqlValue R) → Option (SqlValue R)
head_value [] = none
head_value (v ∷ vs) = if is_null v then none else some v

unfoldable pub first_value : {R : Type 0} → Map (List (SqlValue R)) → Text → Option (SqlValue R)
unfolding lookup
first_value values key = elim (lookup key values) [ none ↦ none | some row ↦ head_value row ]

module _ {R : Type 0} (d : Doubles R) where
  -- `compareSerializedOrder`
  abbrev pub compare_serialized_order : SqlValue R → SqlValue R → Ordering
  compare_serialized_order left right = or_equal (compare_sql d left right)

  -- The comparison of `orderedKeys` on two rows of values: nulls first, and the shorter row first.
  unfoldable pub compare_values : List (SqlValue R) → List (SqlValue R) → Ordering
  unfolding compare_sql
  compare_values [] [] = Ordering.eq
  compare_values [] (w ∷ ws) = Ordering.lt
  compare_values (v ∷ vs) [] = Ordering.gt
  compare_values (v ∷ vs) (w ∷ ws) =
      let rest = compare_values vs ws in
      if is_null v && is_null w
      then rest
      else if is_null v
      then Ordering.lt
      else if is_null w
      then Ordering.gt
      else then_by (compare_serialized_order v w) rest

  -- On two keys: by their values, or by the keys themselves where values are missing.
  unfoldable pub compare_keys : Map (List (SqlValue R)) → Text → Text → Ordering
  unfolding lookup compare_values compare_units
  compare_keys values a b = elim (lookup a values) [
    | none ↦ compare_units a b
    | some left ↦ elim (lookup b values) [
      | none ↦ compare_units a b
      | some right ↦ compare_values left right
    ]
  ]

  -- `orderedKeys`, behind the cache.
  unfoldable pub ordered_keys : IndexStore R → List Text
  unfolding sort_keys compare_keys
  ordered_keys s = elim s.sorted_keys [
    | some keys ↦ keys
    | none ↦ sort_keys (compare_keys s.key_values) (keys_of s.entries)
  ]

  -- `orderedKeys` fills the cache.
  unfoldable pub remember_order : IndexStore R → IndexStore R
  unfolding ordered_keys
  remember_order s = record s { sorted_keys = some (ordered_keys s) }

  -- `before` of `lowerBoundKeyValues`, for its modes: "gt" and "ge", and "any" for the others.
  abbrev pub before_lower_value : RangeOp → SqlValue R → Option (SqlValue R) → Bool
  before_lower_value op bound none = true
  before_lower_value above bound (some v) = not (is_gt (compare_serialized_order v bound))
  before_lower_value at_least bound (some v) = is_lt (compare_serialized_order v bound)
  before_lower_value op bound (some v) = false

  -- Not `after` of `upperBoundKeyValues`: "lt" for `<`, and "le".
  abbrev pub before_upper_value : RangeOp → SqlValue R → Option (SqlValue R) → Bool
  before_upper_value op bound none = true
  before_upper_value below bound (some v) = is_lt (compare_serialized_order v bound)
  before_upper_value op bound (some v) = not (is_gt (compare_serialized_order v bound))

  abbrev pub before_lower : RangeOp → SqlValue R → Map (List (SqlValue R)) → Text → Bool
  before_lower op bound values key = before_lower_value op bound (first_value values key)

  abbrev pub before_upper : RangeOp → SqlValue R → Map (List (SqlValue R)) → Text → Bool
  before_upper op bound values key = before_upper_value op bound (first_value values key)

  -- The start and the end of the range, and the test of a key's first value in it.
  unfoldable pub range_start : RangeOp → SqlValue R → Map (List (SqlValue R)) → List Text → ℕ
  unfolding partition_point first_value
  range_start op bound values keys = partition_point (before_lower op bound values) keys

  abbrev pub end_between : Option (SqlValue R) → Map (List (SqlValue R)) → List Text → ℕ
  end_between none values keys = length keys
  end_between (some bound2) values keys = partition_point (before_upper between bound2 values) keys

  unfoldable pub range_end :
      RangeOp → SqlValue R → Option (SqlValue R) → Map (List (SqlValue R)) → List Text → ℕ
  unfolding partition_point first_value
  range_end below bound bound2 values keys = partition_point (before_upper below bound values) keys
  range_end at_most bound bound2 values keys =
      partition_point (before_upper at_most bound values) keys
  range_end between bound bound2 values keys = end_between bound2 values keys
  range_end above bound bound2 values keys = length keys
  range_end at_least bound bound2 values keys = length keys

  abbrev pub is_between : SqlValue R → SqlValue R → Option (SqlValue R) → Bool
  is_between v bound none = false
  is_between v bound (some bound2) =
      not (is_lt (compare_serialized_order v bound))
      && not (is_gt (compare_serialized_order v bound2))

  abbrev pub in_range : RangeOp → SqlValue R → Option (SqlValue R) → Option (SqlValue R) → Bool
  in_range op bound bound2 none = false
  in_range above bound bound2 (some v) = is_gt (compare_serialized_order v bound)
  in_range at_least bound bound2 (some v) = not (is_lt (compare_serialized_order v bound))
  in_range below bound bound2 (some v) = is_lt (compare_serialized_order v bound)
  in_range at_most bound bound2 (some v) = not (is_gt (compare_serialized_order v bound))
  in_range between bound bound2 (some v) = is_between v bound bound2

  abbrev pub passes :
      RangeOp → SqlValue R → Option (SqlValue R) → Map (List (SqlValue R)) → Text → Bool
  passes op bound bound2 values key = in_range op bound bound2 (first_value values key)

  -- `rangeLookup`
  unfoldable pub range_lookup : RangeOp → SqlValue R → Option (SqlValue R) → IndexStore R → List ℤ
  unfolding ordered_keys range_start range_end collect first_value
  range_lookup op bound bound2 s =
      let keys = ordered_keys s in
      let start = range_start op bound s.key_values keys in
      let end = range_end op bound bound2 s.key_values keys in
      collect (passes op bound bound2 s.key_values) s.entries (take (end - start) (drop start keys))
