-- ===== src/Storage/Cow.antt =====
-- storage/database-state.ts: one map of the catalog (`tables`, or `indexes`) over shared objects.
-- Two states may hold the same object; a frozen object is copied before it is written. Objects live
-- in a heap, and a map sends the lower-case name to the object's address.
pub mod Maps
pub mod Views
pub mod Owned
pub mod Marking
pub mod Writing
pub mod Writes
use sqlite_mem.Prelude.{
  ℕ, suc, Text, to_lower, Bool, true, false, Option, none, some, List, [], ◌∷◌, ◌==◌, if◌then◌else◌,
}
use Maps.{Map, lookup, set, delete}

-- A `Table`, or an `IndexInfo` with its store. `content` is all but the name and the frozen flag, as
-- a copy has it: of a table the fields, and references to its `Row` objects, which the copy shares
-- (Transactions/RowObjects has the rows themselves). The copy of an index shares the maps of the store
-- until its first write, which copies them (`forkMaps`): a store that was copied is frozen as long as
-- its manager has the copy, so that a content by value shows the same.
pub record Object (C : Type 0) : Type 0 where
  pub name : Text
  pub content : C
  pub frozen : Bool

pub record Heap (C : Type 0) : Type 0 where
  pub next : ℕ
  pub at : ℕ → Object C

-- `Map<string, Table>`, the tables by address.
abbrev pub Refs : Type 0
Refs = Map ℕ

-- A writable object, the heap and the map in which it stands.
pub record Writable (C : Type 0) : Type 0 where
  pub heap : Heap C
  pub refs : Refs
  pub ref : ℕ

-- The copies that `clone` makes of the objects of a map, and their map.
pub record Copied (C : Type 0) : Type 0 where
  pub heap : Heap C
  pub refs : Refs

module _ {C : Type 0} where
  -- A write to the object at `r`.
  abbrev pub put : Heap C → ℕ → Object C → Heap C
  put h r o = record h { at = λ q. if q == r then o else h.at q }

  -- A new object, at the address `h.next`.
  abbrev pub alloc : Heap C → Object C → Heap C
  alloc h o = record { next = suc h.next; at = λ q. if q == h.next then o else h.at q }

  -- `freezeShared` (`true`) and `thawShared` (`false`), on one map.
  unfoldable pub mark : Bool → Heap C → Refs → Heap C
  mark b h [] = h
  mark b h ((k, r) ∷ m) = mark b (put h r (record (h.at r) { frozen = b })) m

  -- `table.clone()`: the copy is not frozen.
  abbrev pub cloned : Object C → Object C
  cloned o = record o { frozen = false }

  -- `ensureWritableTable` and `ensureWritableIndex`: a frozen object is replaced by a copy in the map.
  unfoldable pub ensure_writable : Heap C → Refs → ℕ → Writable C
  unfolding set
  ensure_writable h m r =
      let o = h.at r in
      if o.frozen
      then record { heap = alloc h (cloned o); refs = set (to_lower o.name) h.next m; ref = h.next }
      else record { heap = h; refs = m; ref = r }

  -- `getWritableTable` and `getWritableIndex`; `none` where the source throws that it is not there.
  unfoldable pub get_writable : Heap C → Refs → Text → Option (Writable C)
  unfolding lookup ensure_writable
  get_writable h m name = elim (lookup (to_lower name) m) [
    | none ↦ none
    | some r ↦ some (ensure_writable h m r)
  ]

  -- What a statement does to a table: it writes through the writable object.
  abbrev pub write_at : (C → C) → Writable C → Heap C
  write_at f w =
      put w.heap w.ref (record (w.heap.at w.ref) { content = f (w.heap.at w.ref).content })

  -- `clone`, on one map.
  unfoldable pub clone_all : Heap C → Refs → Copied C
  clone_all h [] = record { heap = h; refs = [] }
  clone_all h ((k, r) ∷ m) =
      let rest = clone_all (alloc h (cloned (h.at r))) m in
      record rest { refs = (k, h.next) ∷ rest.refs }
