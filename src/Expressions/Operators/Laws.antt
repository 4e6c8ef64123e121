-- ===== src/Expressions/Operators/Laws.antt =====
-- The comparison operators against each other: opposites, and the operands swapped.
use Prim.Native.Nat.{Ordering}
use mathlib.Core.Option
use sqlite_mem.Prelude.{
  Text, Bool, true, false, not, Option, none, some, [], ◌∷◌, ◌≡◌, refl, ap, sym, ◌∙◌, arith, inl,
  inr, Bool-cases, Option-cases,
}
use sqlite_mem.Prelude.Int.{pos, eqb_ℤ}
use sqlite_mem.Errors.{Result, ok, err, ◌>>=◌, Result-cases}
use sqlite_mem.Types.Value.{
  SqlValue, integer, is_null, Affinity, text_affinity, numeric_affinity, integer_affinity,
  real_affinity, blob_affinity,
}
use sqlite_mem.Types.Comparison.Units.{flip}
use sqlite_mem.Types.Comparison.Laws.{IsOrdered, compare_sql-flip}
use sqlite_mem.Types.Conversion.{Numbers, apply_comparison_affinity}
use sqlite_mem.Types.{
  normalize_value, normalize_for_collation, builtin_collation, compare_with_collation,
}
use sqlite_mem.Expressions.Operators.{
  boolean_value, ComparisonOp, is, is_not, is_distinct_from, is_not_distinct_from, equal,
  equal_equal, not_equal, angle_not_equal, less, less_equal, greater, greater_equal, holds,
  asks_equal, is_eq, compare_collated, is_same, same_bool, ordered_value, compare_converted,
  compare_result,
}

-- NOT of a comparison's value.
abbrev pub not_value : {R : Type 0} → SqlValue R → SqlValue R
not_value (integer z) = boolean_value (eqb_ℤ z (pos 0))
not_value value = value

-- The operator that says the opposite.
abbrev pub opposite : ComparisonOp → ComparisonOp
opposite is = is_not
opposite is_not = is
opposite is_distinct_from = is_not_distinct_from
opposite is_not_distinct_from = is_distinct_from
opposite equal = not_equal
opposite equal_equal = angle_not_equal
opposite not_equal = equal
opposite angle_not_equal = equal_equal
opposite less = greater_equal
opposite less_equal = greater
opposite greater = less_equal
opposite greater_equal = less

-- The operator that says the same of the operands swapped.
abbrev pub swapped : ComparisonOp → ComparisonOp
swapped less = greater
swapped less_equal = greater_equal
swapped greater = less
swapped greater_equal = less_equal
swapped op = op

holds-opposite :
    (op : ComparisonOp) (o : Ordering)
    → asks_equal op ≡ none
    → holds (opposite op) o ≡ not (holds op o)
holds-opposite equal Ordering.lt e = refl
holds-opposite op o e = ground (arith, e)

opposite_asks : (op : ComparisonOp) → asks_equal op ≡ none → asks_equal (opposite op) ≡ none
opposite_asks equal e = refl
opposite_asks op e = cc

opposite_wanted :
    (op : ComparisonOp) (wanted : Bool)
    → asks_equal op ≡ some wanted
    → asks_equal (opposite op) ≡ some (not wanted)
opposite_wanted is true e = refl
opposite_wanted op wanted e = ground (arith, e)

holds-swapped : (op : ComparisonOp) (o : Ordering) → holds (swapped op) (flip o) ≡ holds op o
holds-swapped equal Ordering.lt = refl
holds-swapped op o = ground arith

swapped_asks : (op : ComparisonOp) → asks_equal (swapped op) ≡ asks_equal op
swapped_asks equal = refl
swapped_asks op = refl

module _ {R : Type 0} (h : Numbers R) (to_upper : Text → Text) where
  not_boolean : (b : Bool) → boolean_value {R = R} (not b) ≡ not_value (boolean_value b)
  not_boolean true = refl
  not_boolean false = refl

  same_opposite :
      (wanted : Bool) (same : Result Bool)
      → (same >>= λ equal. ok (boolean_value {R = R} (same_bool (not wanted) equal))) ≡ (
          (same >>= λ equal. ok (boolean_value (same_bool wanted equal))) >>= λ v. ok (not_value v))
  same_opposite true (ok true) = refl
  same_opposite true (ok false) = refl
  same_opposite false (ok true) = refl
  same_opposite false (ok false) = refl
  same_opposite wanted (err e) = refl

  ordered_opposite :
      (op : ComparisonOp) (e : asks_equal op ≡ none) (c : Result (Option Ordering))
      → (c >>= λ o. ok (ordered_value {R = R} (opposite op) o))
        ≡ ((c >>= λ o. ok (ordered_value op o)) >>= λ v. ok (not_value v))
  ordered_opposite op e (ok none) = refl
  ordered_opposite op e (ok (some o)) =
      ap ok (ap boolean_value (holds-opposite op o e) ∙ not_boolean (holds op o))
  ordered_opposite op e (err x) = refl

  converted_ordered :
      (op : ComparisonOp) (left right : SqlValue R) (collation : Option Text)
      → asks_equal op ≡ none
      → compare_converted h to_upper op left right collation
        ≡ (compare_collated h to_upper left right collation >>= λ o. ok (ordered_value op o))
  unfolding compare_converted
  converted_ordered op left right collation e = rw (e, compare_converted) refl

  converted_same :
      (op : ComparisonOp) (wanted : Bool) (left right : SqlValue R) (collation : Option Text)
      → asks_equal op ≡ some wanted
      → compare_converted h to_upper op left right collation ≡ (
          is_same h to_upper left right collation >>= λ equal.
          ok (boolean_value (same_bool wanted equal)))
  unfolding compare_converted
  converted_same op wanted left right collation e = rw (e, compare_converted) refl

  converted_opposite :
      (op : ComparisonOp) (left right : SqlValue R) (collation : Option Text)
      → compare_converted h to_upper (opposite op) left right collation
        ≡ (compare_converted h to_upper op left right collation >>= λ v. ok (not_value v))
  converted_opposite op left right collation = elim (Option-cases (asks_equal op)) [
    | inl ordered ↦
        converted_ordered (opposite op) left right collation (opposite_asks op ordered)
        ∙ ordered_opposite op ordered (compare_collated h to_upper left right collation)
        ∙ ap (λ r. r >>= λ v. ok (not_value v))
            (sym (converted_ordered op left right collation ordered))
    | inr (wanted, asked) ↦
        converted_same (opposite op) (not wanted) left right collation
          (opposite_wanted op wanted asked)
        ∙ same_opposite wanted (is_same h to_upper left right collation)
        ∙ ap (λ r. r >>= λ v. ok (not_value v))
            (sym (converted_same op wanted left right collation asked))
  ]

  -- An operator and its opposite have opposite results, or both have null, or both throw the same.
  pub compare_result-opposite :
      (op : ComparisonOp) (left right : SqlValue R) (collation : Option Text)
      (la ra : Option Affinity)
      → compare_result h to_upper (opposite op) left right collation la ra
        ≡ (compare_result h to_upper op left right collation la ra >>= λ v. ok (not_value v))
  unfolding compare_result
  compare_result-opposite op left right collation la ra =
      let converted = apply_comparison_affinity h left right la ra in
      converted_opposite op converted.0 converted.1 collation

  -- The affinities of the two sides play the same part.
  apply_comparison_affinity-swap :
      (left right : SqlValue R) (la ra : Option Affinity)
      → apply_comparison_affinity h right left ra la ≡ (
        (apply_comparison_affinity h left right la ra).1,
        (apply_comparison_affinity h left right la ra).0,
      )
  unfolding apply_comparison_affinity
  apply_comparison_affinity-swap left right none none = refl
  apply_comparison_affinity-swap left right none (some text_affinity) = refl
  apply_comparison_affinity-swap left right (some text_affinity) none = refl
  apply_comparison_affinity-swap left right (some text_affinity) (some text_affinity) = refl
  apply_comparison_affinity-swap left right (some numeric_affinity) (some text_affinity) = refl
  apply_comparison_affinity-swap left right (some integer_affinity) (some text_affinity) = refl
  apply_comparison_affinity-swap left right (some real_affinity) (some text_affinity) = refl
  apply_comparison_affinity-swap left right (some blob_affinity) (some text_affinity) = refl
  apply_comparison_affinity-swap left right la ra = refl

  module _ (o : IsOrdered h.doubles) where
    with_collation-swap :
        (left right : SqlValue R) (name : Text)
        → compare_with_collation to_upper h.doubles right left name ≡ (
            compare_with_collation to_upper h.doubles left right name >>= λ c.
            ok (Option.map flip c))
    unfolding compare_with_collation normalize_for_collation
    with_collation-swap left right name = elim (Result-cases (builtin_collation to_upper name)) [
      | inr (x, fails) ↦ rw fails refl
      | inl (c, found) ↦
          rw found (
            ap ok (compare_sql-flip h.doubles o (normalize_value c left) (normalize_value c right)))
    ]

    collated-swap :
        (left right : SqlValue R) (collation : Option Text)
        → compare_collated h to_upper right left collation
          ≡ (compare_collated h to_upper left right collation >>= λ c. ok (Option.map flip c))
    unfolding compare_collated
    collated-swap left right none = ap ok (compare_sql-flip h.doubles o left right)
    collated-swap left right (some []) = ap ok (compare_sql-flip h.doubles o left right)
    collated-swap left right (some (c ∷ cs)) = with_collation-swap left right (c ∷ cs)

    is_eq-flip : (c : Option Ordering) → is_eq (Option.map flip c) ≡ is_eq c
    is_eq-flip none = refl
    is_eq-flip (some Ordering.lt) = refl
    is_eq-flip (some Ordering.eq) = refl
    is_eq-flip (some Ordering.gt) = refl

    after_swap :
        {A : Type 0} (c : Result (Option Ordering)) (f g : Option Ordering → A)
        → ((x : Option Ordering) → g (Option.map flip x) ≡ f x)
        → ((c >>= λ x. ok (Option.map flip x)) >>= λ x. ok (g x)) ≡ (c >>= λ x. ok (f x))
    after_swap (ok x) f g e = ap ok (e x)
    after_swap (err x) f g e = refl

    is_same-swap :
        (left right : SqlValue R) (collation : Option Text)
        → is_same h to_upper right left collation ≡ is_same h to_upper left right collation
    unfolding is_same
    is_same-swap left right collation = elim (Bool-cases (is_null left)) [
      | inl no_left ↦ elim (Bool-cases (is_null right)) [
        | inl no_right ↦ rw (no_left, no_right) refl
        | inr there ↦ rw (no_left, there) refl
      ]
      | inr there ↦ elim (Bool-cases (is_null right)) [
        | inl no_right ↦ rw (there, no_right) refl
        | inr both ↦
            rw (there, both, collated-swap left right collation)
              (after_swap (compare_collated h to_upper left right collation) is_eq is_eq is_eq-flip)
      ]
    ]

    ordered-swap :
        (op : ComparisonOp) (x : Option Ordering)
        → ordered_value {R = R} (swapped op) (Option.map flip x) ≡ ordered_value op x
    ordered-swap op none = refl
    ordered-swap op (some x) = ap boolean_value (holds-swapped op x)

    converted-swap :
        (op : ComparisonOp) (left right : SqlValue R) (collation : Option Text)
        → compare_converted h to_upper (swapped op) right left collation
          ≡ compare_converted h to_upper op left right collation
    converted-swap op left right collation = elim (Option-cases (asks_equal op)) [
      | inl ordered ↦
          converted_ordered (swapped op) right left collation (swapped_asks op ∙ ordered)
          ∙ ap (λ r. r >>= λ x. ok (ordered_value (swapped op) x))
              (collated-swap left right collation)
          ∙ after_swap (compare_collated h to_upper left right collation) (ordered_value op)
              (ordered_value (swapped op)) (ordered-swap op)
          ∙ sym (converted_ordered op left right collation ordered)
      | inr (wanted, asked) ↦
          converted_same (swapped op) wanted right left collation (swapped_asks op ∙ asked)
          ∙ ap (λ r. r >>= λ equal. ok (boolean_value (same_bool wanted equal)))
              (is_same-swap left right collation)
          ∙ sym (converted_same op wanted left right collation asked)
    ]

    -- With the operands and their affinities swapped and the operator turned round, a comparison has
    -- the same result, or throws the same.
    pub compare_result-swapped :
        (op : ComparisonOp) (left right : SqlValue R) (collation : Option Text)
        (la ra : Option Affinity)
        → compare_result h to_upper (swapped op) right left collation ra la
          ≡ compare_result h to_upper op left right collation la ra
    unfolding compare_result
    compare_result-swapped op left right collation la ra =
        let converted = apply_comparison_affinity h left right la ra in
        rw (apply_comparison_affinity-swap left right la ra)
          (converted-swap op converted.0 converted.1 collation)
