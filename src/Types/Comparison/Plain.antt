-- ===== src/Types/Comparison/Plain.antt =====
-- Among values of which none is a BigInt, `compareSql` is a total order of all values, NaN included.
use Prim.Native.Nat.{Ordering}
use sqlite_mem.Prelude.{◌≡◌, ◌≢◌, refl, arith, ap, ◌∙◌}
use sqlite_mem.Types.Value.{Real}
use sqlite_mem.Types.Comparison.{
  Doubles, exact, double, Comparable, missing, number, words, bytes, compare_less, compare_doubles,
  compare_numbers, compare_comparable,
}
use sqlite_mem.Types.Comparison.Units.{flip, compare_units_split}
use sqlite_mem.Types.Comparison.Laws.{IsOrdered, compare_comparable-flip}

-- There, and no BigInt.
abbrev pub IsPlain : {R : Type 0} → Comparable R → Type 0
IsPlain missing = ⊥
IsPlain (number (exact z)) = ⊥
IsPlain _ = Unit

pub IsPlain-missing : {R : Type 0} (c : Comparable R) → IsPlain c → c ≢ missing
IsPlain-missing missing h e = h
IsPlain-missing (number n) h e = cc
IsPlain-missing (words s) h e = cc
IsPlain-missing (bytes b) h e = cc

module _ {R : Type 0} (d : Doubles R) (o : IsOrdered d) where
  compare_doubles_split :
      (a b c : Real R)
      → compare_doubles d a c ≡ Ordering.lt
      → compare_doubles d a b ≢ Ordering.lt
      → compare_doubles d b c ≡ Ordering.lt
  unfolding compare_doubles compare_less
  compare_doubles_split a b c e h = ground (arith, o.split a b c)

  pub compare_comparable_split :
      (a b c : Comparable R)
      → IsPlain a
      → IsPlain b
      → IsPlain c
      → compare_comparable d a c ≡ Ordering.lt
      → compare_comparable d a b ≢ Ordering.lt
      → compare_comparable d b c ≡ Ordering.lt
  unfolding compare_comparable compare_numbers
  compare_comparable_split (number (double a)) (number (double b)) (number (double c)) h k l e n =
      compare_doubles_split a b c e n
  compare_comparable_split (words a) (words b) (words c) h k l e n = compare_units_split a b c e n
  compare_comparable_split (bytes a) (bytes b) (bytes c) h k l e n = compare_units_split a b c e n
  compare_comparable_split (number (double a)) (number (double b)) (words c) h k l e n = refl
  compare_comparable_split a b c h k l e n = ground arith

  -- Not above: `compareSql` is not 1.
  abbrev pub NotAbove : Comparable R → Comparable R → Type 0
  NotAbove a b = compare_comparable d a b ≢ Ordering.gt

  pub turn :
      (a b : Comparable R)
      → a ≢ missing
      → b ≢ missing
      → compare_comparable d a b ≡ Ordering.gt
      → compare_comparable d b a ≡ Ordering.lt
  turn a b h k e = compare_comparable-flip d o a b h k ∙ ap flip e

  pub turn_back :
      (a b : Comparable R)
      → a ≢ missing
      → b ≢ missing
      → compare_comparable d b a ≡ Ordering.lt
      → compare_comparable d a b ≡ Ordering.gt
  turn_back a b h k e = compare_comparable-flip d o b a k h ∙ ap flip e

  pub NotAbove-trans :
      (a b c : Comparable R)
      → IsPlain a
      → IsPlain b
      → IsPlain c
      → NotAbove a b
      → NotAbove b c
      → NotAbove a c
  NotAbove-trans a b c h k l p q e =
      let turned : compare_comparable d c a ≡ Ordering.lt =
        turn a c (IsPlain-missing a h) (IsPlain-missing c l) e in
      let above =
        compare_comparable_split c b a l k h turned
          (λ f. q (turn_back b c (IsPlain-missing b k) (IsPlain-missing c l) f)) in
      p (turn_back a b (IsPlain-missing a h) (IsPlain-missing b k) above)
