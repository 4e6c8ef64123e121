-- ===== src/Indexes/Search/Ranges.antt =====
-- A search of a range finds what a scan of all keys finds.
use Prim.Native.Nat.{Ordering}
use sqlite_mem.Prelude.{
  ◌^◌, ◌<◌, Text, Bool, true, false, not, Option, none, some, List, length, All, ◌≡◌, ◌≢◌, refl, ap,
  sym, ◌∙◌,
}
use sqlite_mem.Storage.Cow.Maps.{Map}
use sqlite_mem.Types.Value.{SqlValue}
use sqlite_mem.Types.Comparison.{Doubles, comparable, compare_comparable}
use sqlite_mem.Types.Comparison.Laws.{IsOrdered}
use sqlite_mem.Types.Comparison.Plain.{
  IsPlain-missing, NotAbove, NotAbove-trans, compare_comparable_split, turn_back,
}
use sqlite_mem.Indexes.Search.{
  is_lt, is_gt, RangeOp, above, at_least, below, at_most, between, partition_point,
  compare_serialized_order, first_value, before_lower_value, before_upper_value, before_lower,
  before_upper,
}
use sqlite_mem.Indexes.Search.Points.{SplitsAt, partition_point-SplitsAt}
use sqlite_mem.Indexes.Search.Sorting.{Ascending, before_at_mono}
use sqlite_mem.Indexes.Search.Heads.{
  Plain, PlainHead, HeadLe, Plain-is_null, compare_present, Good, KeyLe, Good-PlainHead,
}

module _ {R : Type 0} (d : Doubles R) (o : IsOrdered d) where
  module _ (bound : SqlValue R) (b : Plain d o bound) where
    -- The order with the bound is that of the classes.
    with_bound :
        (v : SqlValue R)
        → Plain d o v
        → compare_serialized_order d v bound
          ≡ compare_comparable d (comparable d v) (comparable d bound)
    with_bound v h = compare_present d o v bound (Plain-is_null d o v h) (Plain-is_null d o bound b)

    NotAbove-down :
        (v w : SqlValue R)
        → Plain d o v
        → Plain d o w
        → NotAbove d o (comparable d v) (comparable d w)
        → is_gt (compare_serialized_order d w bound) ≡ false
        → is_gt (compare_serialized_order d v bound) ≡ false
    NotAbove-down v w h k l e =
        ap is_gt (with_bound v h)
        ∙ to_false (compare_comparable d (comparable d v) (comparable d bound)) (
            NotAbove-trans d o (comparable d v) (comparable d w) (comparable d bound) h k b l (
              of_false (compare_comparable d (comparable d w) (comparable d bound))
                (ap is_gt (sym (with_bound w k)) ∙ e)))
      where
        to_false : (c : Ordering) → c ≢ Ordering.gt → is_gt c ≡ false
        to_false Ordering.lt n = refl
        to_false Ordering.eq n = refl
        to_false Ordering.gt n = absurd (n refl)

        of_false : (c : Ordering) → is_gt c ≡ false → c ≢ Ordering.gt
        of_false c n f = cc (ap is_gt f)

    below_down :
        (v w : SqlValue R)
        → Plain d o v
        → Plain d o w
        → NotAbove d o (comparable d v) (comparable d w)
        → is_lt (compare_serialized_order d w bound) ≡ true
        → is_lt (compare_serialized_order d v bound) ≡ true
    below_down v w h k l e = ap is_lt (
        with_bound v h
        ∙ compare_comparable_split d o (comparable d w) (comparable d v) (comparable d bound) k h b
            (of_true (compare_comparable d (comparable d w) (comparable d bound))
              (ap is_lt (sym (with_bound w k)) ∙ e))
            (λ f. l (
              turn_back d o (comparable d v) (comparable d w) (IsPlain-missing _ h)
                (IsPlain-missing _ k) f)))
      where
        of_true : (c : Ordering) → is_lt c ≡ true → c ≡ Ordering.lt
        of_true Ordering.lt n = refl
        of_true Ordering.eq n = cc
        of_true Ordering.gt n = cc

    not-true : (c : Bool) → not c ≡ true → c ≡ false
    not-true true e = cc
    not-true false e = refl

    lower_down :
        (op : RangeOp) (u v : Option (SqlValue R))
        → PlainHead d o u
        → PlainHead d o v
        → HeadLe d o u v
        → before_lower_value d op bound v ≡ true
        → before_lower_value d op bound u ≡ true
    lower_down above none v h k l e = refl
    lower_down at_least none v h k l e = refl
    lower_down below none v h k l e = refl
    lower_down at_most none v h k l e = refl
    lower_down between none v h k l e = refl
    lower_down op (some u) none h k l e = absurd l
    lower_down above (some u) (some v) h k l e = ap not (NotAbove-down u v h k l (not-true _ e))
    lower_down at_least (some u) (some v) h k l e = below_down u v h k l e
    lower_down below (some u) (some v) h k l e = cc
    lower_down at_most (some u) (some v) h k l e = cc
    lower_down between (some u) (some v) h k l e = cc

    upper_down :
        (op : RangeOp) (u v : Option (SqlValue R))
        → PlainHead d o u
        → PlainHead d o v
        → HeadLe d o u v
        → before_upper_value d op bound v ≡ true
        → before_upper_value d op bound u ≡ true
    upper_down above none v h k l e = refl
    upper_down at_least none v h k l e = refl
    upper_down below none v h k l e = refl
    upper_down at_most none v h k l e = refl
    upper_down between none v h k l e = refl
    upper_down op (some u) none h k l e = absurd l
    upper_down above (some u) (some v) h k l e = ap not (NotAbove-down u v h k l (not-true _ e))
    upper_down at_least (some u) (some v) h k l e = ap not (NotAbove-down u v h k l (not-true _ e))
    upper_down below (some u) (some v) h k l e = below_down u v h k l e
    upper_down at_most (some u) (some v) h k l e = ap not (NotAbove-down u v h k l (not-true _ e))
    upper_down between (some u) (some v) h k l e = ap not (NotAbove-down u v h k l (not-true _ e))

    module _ (values : Map (List (SqlValue R))) (keys : List Text)
        (good : All (λ k. Good d o values k) keys) (sorted : Ascending (KeyLe d o values) keys)
        (small : length keys < 2 ^ 31) where
      pub start-SplitsAt :
          (op : RangeOp)
          → SplitsAt
              (before_lower d op bound values)
              keys
              (partition_point (before_lower d op bound values) keys)
      start-SplitsAt op =
          partition_point-SplitsAt (before_lower d op bound values) keys
            (before_at_mono (Good d o values) (KeyLe d o values) (before_lower d op bound values)
              (λ x y g h r e.
                lower_down op (first_value values x) (first_value values y)
                  (Good-PlainHead d o values x g) (Good-PlainHead d o values y h) r e)
              keys good sorted)
            small

      pub end-SplitsAt :
          (op : RangeOp)
          → SplitsAt
              (before_upper d op bound values)
              keys
              (partition_point (before_upper d op bound values) keys)
      end-SplitsAt op =
          partition_point-SplitsAt (before_upper d op bound values) keys
            (before_at_mono (Good d o values) (KeyLe d o values) (before_upper d op bound values)
              (λ x y g h r e.
                upper_down op (first_value values x) (first_value values y)
                  (Good-PlainHead d o values x g) (Good-PlainHead d o values y h) r e)
              keys good sorted)
            small
