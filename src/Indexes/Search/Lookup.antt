-- ===== src/Indexes/Search/Lookup.antt =====
-- A search of a range finds what a scan of all keys finds.
use sqlite_mem.Prelude.{
  ◌-◌, ◌^◌, ◌<◌, Text, Bool, true, false, not, Option, none, some, List, [], ◌∷◌, length, take,
  drop, All, ◌≡◌, refl, ap, arith,
}
use sqlite_mem.Prelude.Int.{ℤ}
use sqlite_mem.Storage.Cow.Maps.{Map}
use sqlite_mem.Types.Value.{SqlValue}
use sqlite_mem.Types.Comparison.{Doubles}
use sqlite_mem.Types.Comparison.Laws.{IsOrdered}
use sqlite_mem.Indexes.{IndexStore}
use sqlite_mem.Indexes.Search.{
  keys_of, is_gt, sort_keys, RangeOp, above, at_least, below, at_most, between,
  compare_serialized_order, compare_keys, ordered_keys, first_value, before_lower_value,
  before_upper_value, before_lower, before_upper, range_start, range_end, end_between, in_range,
  collect, passes, range_lookup,
}
use sqlite_mem.Indexes.Search.Points.{All-take, All-drop}
use sqlite_mem.Indexes.Search.Sorting.{
  Ascending, length-sort_keys, sort_keys-All, sort_keys-Ascending,
}
use sqlite_mem.Indexes.Search.Scanning.{collect_slice}
use sqlite_mem.Indexes.Search.Heads.{Plain, Good, KeyLe, KeyLe-trans, KeyLe-of_not_gt, KeyLe-of_gt}
use sqlite_mem.Indexes.Search.Ranges.{start-SplitsAt, end-SplitsAt}

All-imp :
    {A : Type 0} (P Q : A → Type 0) (xs : List A) → ((x : A) → P x → Q x) → All P xs → All Q xs
All-imp P Q [] f h = tt
All-imp P Q (x ∷ xs) f (p, h) = (f x p, All-imp P Q xs f h)

All-drop-length : {A : Type 0} (P : A → Type 0) (xs : List A) → All P (drop (length xs) xs)
All-drop-length P [] = tt
All-drop-length P (x ∷ xs) = All-drop-length P xs

module _ {R : Type 0} (d : Doubles R) where
  -- What comes before the start, or from the end on, does not pass.
  before_start :
      (op : RangeOp) (bound : SqlValue R) (bound2 u : Option (SqlValue R))
      → before_lower_value d op bound u ≡ true
      → in_range d op bound bound2 u ≡ false
  before_start above bound bound2 none e = refl
  before_start at_least bound bound2 none e = refl
  before_start below bound bound2 none e = refl
  before_start at_most bound bound2 none e = refl
  before_start between bound bound2 none e = refl
  before_start above bound bound2 (some v) e =
      not-true (is_gt (compare_serialized_order d v bound)) e
    where
      not-true : (c : Bool) → not c ≡ true → c ≡ false
      not-true true f = cc
      not-true false f = refl
  before_start at_least bound bound2 (some v) e = ap not e
  before_start below bound bound2 (some v) e = cc
  before_start at_most bound bound2 (some v) e = cc
  before_start between bound bound2 (some v) e = cc

  from_end_below :
      (bound : SqlValue R) (bound2 u : Option (SqlValue R))
      → before_upper_value d below bound u ≡ false
      → in_range d below bound bound2 u ≡ false
  from_end_below bound bound2 none e = refl
  from_end_below bound bound2 (some v) e = e

  from_end_at_most :
      (bound : SqlValue R) (bound2 u : Option (SqlValue R))
      → before_upper_value d at_most bound u ≡ false
      → in_range d at_most bound bound2 u ≡ false
  from_end_at_most bound bound2 none e = refl
  from_end_at_most bound bound2 (some v) e = e

  from_end_between :
      (bound bound2 : SqlValue R) (u : Option (SqlValue R))
      → before_upper_value d between bound2 u ≡ false
      → in_range d between bound (some bound2) u ≡ false
  from_end_between bound bound2 none e = refl
  from_end_between bound bound2 (some v) e = ground (arith, e)

  nothing_between :
      (bound : SqlValue R) (u : Option (SqlValue R)) → in_range d between bound none u ≡ false
  nothing_between bound none = refl
  nothing_between bound (some v) = refl

module _ {R : Type 0} (d : Doubles R) (o : IsOrdered d) where
  abbrev pub PlainBound : Option (SqlValue R) → Type 0
  PlainBound none = Unit
  PlainBound (some v) = Plain d o v

  module _ (bound : SqlValue R) (bound2 : Option (SqlValue R)) (b : Plain d o bound)
      (b2 : PlainBound bound2) (values : Map (List (SqlValue R))) (keys : List Text)
      (good : All (λ k. Good d o values k) keys) (sorted : Ascending (KeyLe d o values) keys)
      (small : length keys < 2 ^ 31) where
    front_fails :
        (op : RangeOp)
        → All
            (λ k. passes d op bound bound2 values k ≡ false)
            (take (range_start d op bound values keys) keys)
    unfolding range_start
    front_fails op =
        All-imp (λ k. before_lower d op bound values k ≡ true) _ _
          (λ k e. before_start d op bound bound2 (first_value values k) e)
          (All-take (before_lower d op bound values) keys _
            (start-SplitsAt d o bound b values keys good sorted small op).front)

    between_fails :
        (t : Option (SqlValue R))
        → PlainBound t
        → All
            (λ k. passes d between bound t values k ≡ false)
            (drop (end_between d t values keys) keys)
    between_fails none h = All-drop-length _ keys
    between_fails (some v) h =
        All-imp (λ k. before_upper d between v values k ≡ false) _ _
          (λ k e. from_end_between d bound v (first_value values k) e)
          (All-drop (before_upper d between v values) keys _
            (end-SplitsAt d o v h values keys good sorted small between).back)

    back_fails :
        (op : RangeOp)
        → All
            (λ k. passes d op bound bound2 values k ≡ false)
            (drop (range_end d op bound bound2 values keys) keys)
    unfolding range_end
    back_fails above = All-drop-length _ keys
    back_fails at_least = All-drop-length _ keys
    back_fails below =
        All-imp (λ k. before_upper d below bound values k ≡ false) _ _
          (λ k e. from_end_below d bound bound2 (first_value values k) e)
          (All-drop (before_upper d below bound values) keys _
            (end-SplitsAt d o bound b values keys good sorted small below).back)
    back_fails at_most =
        All-imp (λ k. before_upper d at_most bound values k ≡ false) _ _
          (λ k e. from_end_at_most d bound bound2 (first_value values k) e)
          (All-drop (before_upper d at_most bound values) keys _
            (end-SplitsAt d o bound b values keys good sorted small at_most).back)
    back_fails between = between_fails bound2 b2

    -- The search: with the keys in order, it finds what a scan of them finds.
    pub slice-scan :
        (op : RangeOp) (entries : Map (List ℤ))
        → let start = range_start d op bound values keys in
          let end = range_end d op bound bound2 values keys in
          collect (passes d op bound bound2 values) entries (take (end - start) (drop start keys))
          ≡ collect (passes d op bound bound2 values) entries keys
    slice-scan op entries =
        collect_slice (passes d op bound bound2 values) entries keys _ _ (front_fails op)
          (back_fails op)

  -- The cache of the sorted keys holds what sorting gives.
  abbrev pub CacheIsRight : IndexStore R → Type 0
  CacheIsRight s = ordered_keys d s ≡ sort_keys (compare_keys d s.key_values) (keys_of s.entries)

  -- A search of a range by two binary searches finds the rowids that a scan of all keys in their order
  -- finds, for each operator, if a bound that is there is neither null nor a BigInt, the first values of
  -- the keys are no BigInts, each key has its values, the cache of the order is right and there are
  -- fewer than 2^31 keys.
  pub range_lookup-scan :
      (op : RangeOp) (bound : SqlValue R) (bound2 : Option (SqlValue R)) (s : IndexStore R)
      → Plain d o bound
      → PlainBound bound2
      → All (λ k. Good d o s.key_values k) (keys_of s.entries)
      → CacheIsRight s
      → length (keys_of s.entries) < 2 ^ 31
      → range_lookup d op bound bound2 s
        ≡ collect (passes d op bound bound2 s.key_values) s.entries (ordered_keys d s)
  unfolding range_lookup
  range_lookup-scan op bound bound2 s b b2 good right small =
      let cmp = compare_keys d s.key_values in
      let keys = keys_of s.entries in
      slice-scan bound bound2 b b2 s.key_values (ordered_keys d s)
        (rw right (sort_keys-All cmp (λ k. Good d o s.key_values k) keys good))
        (rw right (
          sort_keys-Ascending cmp (Good d o s.key_values) (KeyLe d o s.key_values)
            (KeyLe-trans d o s.key_values) (KeyLe-of_not_gt d o s.key_values)
            (KeyLe-of_gt d o s.key_values) keys good))
        (rw (right, length-sort_keys cmp keys) small) op s.entries
