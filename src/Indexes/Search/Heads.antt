-- ===== src/Indexes/Search/Heads.antt =====
-- The order that sorting gives the first values of the keys.
use Prim.Native.Nat.{Ordering}
use sqlite_mem.Prelude.{
  Text, true, false, Option, none, some, List, [], ◌∷◌, ◌≡◌, ◌≢◌, refl, ap, sym, ◌∙◌, inl, inr,
  Bool-cases,
}
use sqlite_mem.Storage.Cow.Maps.{Map, lookup}
use sqlite_mem.Types.Value.{
  SqlValue, null, integer, bigint, float, real, text, json_text, blob, is_null,
}
use sqlite_mem.Types.Comparison.{Doubles, comparable, compare_comparable, compare_sql}
use sqlite_mem.Types.Comparison.Units.{flip}
use sqlite_mem.Types.Comparison.Laws.{IsOrdered, compare_comparable-flip}
use sqlite_mem.Types.Comparison.Plain.{IsPlain, IsPlain-missing, NotAbove, NotAbove-trans}
use sqlite_mem.Indexes.Search.{
  is_gt, compare_serialized_order, then_by, compare_values, compare_keys, head_value, first_value,
}

module _ {R : Type 0} (d : Doubles R) (o : IsOrdered d) where
  -- A value that is there and no BigInt.
  abbrev pub Plain : SqlValue R → Type 0
  Plain v = IsPlain (comparable d v)

  abbrev pub PlainHead : Option (SqlValue R) → Type 0
  PlainHead none = Unit
  PlainHead (some v) = Plain v

  -- First values in order: those that are missing first.
  abbrev pub HeadLe : Option (SqlValue R) → Option (SqlValue R) → Type 0
  HeadLe none w = Unit
  HeadLe (some v) none = ⊥
  HeadLe (some v) (some w) = NotAbove d o (comparable d v) (comparable d w)

  HeadLe-trans :
      (u v w : Option (SqlValue R))
      → PlainHead u
      → PlainHead v
      → PlainHead w
      → HeadLe u v
      → HeadLe v w
      → HeadLe u w
  HeadLe-trans none v w h k l p q = tt
  HeadLe-trans (some u) none w h k l p q = absurd p
  HeadLe-trans (some u) (some v) none h k l p q = absurd q
  HeadLe-trans (some u) (some v) (some w) h k l p q =
      NotAbove-trans d o (comparable d u) (comparable d v) (comparable d w) h k l p q

  pub Plain-is_null : (v : SqlValue R) → Plain v → is_null v ≡ false
  Plain-is_null null h = absurd h
  Plain-is_null (integer z) h = refl
  Plain-is_null (bigint z) h = refl
  Plain-is_null (float r) h = refl
  Plain-is_null (real r) h = refl
  Plain-is_null (text s) h = refl
  Plain-is_null (json_text s) h = refl
  Plain-is_null (blob b) h = refl

  pub compare_present :
      (v w : SqlValue R)
      → is_null v ≡ false
      → is_null w ≡ false
      → compare_serialized_order d v w ≡ compare_comparable d (comparable d v) (comparable d w)
  unfolding compare_sql
  compare_present v w h k = rw (h, k) refl

  not_gt : (c rest : Ordering) → is_gt (then_by c rest) ≡ false → c ≢ Ordering.gt
  not_gt Ordering.lt rest e f = cc
  not_gt Ordering.eq rest e f = cc
  not_gt Ordering.gt rest e f = cc

  not_lt : (c rest : Ordering) → is_gt (then_by c rest) ≡ true → flip c ≢ Ordering.gt
  not_lt Ordering.lt rest e f = cc
  not_lt Ordering.eq rest e f = cc
  not_lt Ordering.gt rest e f = cc

  values_below :
      (vs ws : List (SqlValue R))
      → PlainHead (head_value vs)
      → PlainHead (head_value ws)
      → is_gt (compare_values d vs ws) ≡ false
      → HeadLe (head_value vs) (head_value ws)
  unfolding compare_values
  values_below [] ws h k e = tt
  values_below (v ∷ vs) [] h k e = cc
  values_below (v ∷ vs) (w ∷ ws) h k e = elim (Bool-cases (is_null v)) [
    | inl no_left ↦ rw no_left tt
    | inr left ↦ elim (Bool-cases (is_null w)) [
      | inl no_right ↦ cc (rw (left, no_right) at e)
      | inr right ↦
          let tested : is_gt (
                then_by (compare_comparable d (comparable d v) (comparable d w))
                  (compare_values d vs ws))
              ≡ false =
            rw (left, right) at e in
          rw (left, right)
            (not_gt (compare_comparable d (comparable d v) (comparable d w))
              (compare_values d vs ws) tested)
    ]
  ]

  values_above :
      (vs ws : List (SqlValue R))
      → PlainHead (head_value vs)
      → PlainHead (head_value ws)
      → is_gt (compare_values d vs ws) ≡ true
      → HeadLe (head_value ws) (head_value vs)
  unfolding compare_values
  values_above [] [] h k e = cc
  values_above [] (w ∷ ws) h k e = cc
  values_above (v ∷ vs) [] h k e = tt
  values_above (v ∷ vs) (w ∷ ws) h k e = elim (Bool-cases (is_null w)) [
    | inl no_right ↦ rw no_right tt
    | inr right ↦ elim (Bool-cases (is_null v)) [
      | inl no_left ↦ cc (rw (right, no_left) at e)
      | inr left ↦
          let tested : is_gt (
                then_by (compare_comparable d (comparable d v) (comparable d w))
                  (compare_values d vs ws))
              ≡ true =
            rw (left, right) at e in
          let there : Plain v = rw left at h in
          let other : Plain w = rw right at k in
          rw (left, right)
            (λ f.
              not_lt (compare_comparable d (comparable d v) (comparable d w))
                (compare_values d vs ws) tested
                (sym (
                    compare_comparable-flip d o (comparable d v) (comparable d w)
                      (IsPlain-missing _ there) (IsPlain-missing _ other))
                  ∙ f))
    ]
  ]

  -- The row of a key is there, and its first value is missing or plain.
  abbrev pub Good : Map (List (SqlValue R)) → Text → Type 0
  Good values key =
      (row : List (SqlValue R)) × (lookup key values ≡ some row) × PlainHead (head_value row)

  module _ (values : Map (List (SqlValue R))) where
    abbrev pub KeyLe : Text → Text → Type 0
    KeyLe a b = HeadLe (first_value values a) (first_value values b)

    first_value-row :
        (k : Text) (row : List (SqlValue R))
        → lookup k values ≡ some row
        → first_value values k ≡ head_value row
    unfolding first_value
    first_value-row k row e = rw (e, first_value) refl

    pub Good-PlainHead : (k : Text) → Good values k → PlainHead (first_value values k)
    Good-PlainHead k (row, e, h) = rw (first_value-row k row e) h

    pub KeyLe-trans :
        (a b c : Text)
        → Good values a
        → Good values b
        → Good values c
        → KeyLe a b
        → KeyLe b c
        → KeyLe a c
    KeyLe-trans a b c g h k p q =
        HeadLe-trans (first_value values a) (first_value values b) (first_value values c)
          (Good-PlainHead a g) (Good-PlainHead b h) (Good-PlainHead c k) p q

    compare_keys-rows :
        (a b : Text) (v w : List (SqlValue R))
        → lookup a values ≡ some v
        → lookup b values ≡ some w
        → compare_keys d values a b ≡ compare_values d v w
    unfolding compare_keys
    compare_keys-rows a b v w e f = rw (e, f, compare_keys) refl

    pub KeyLe-of_not_gt :
        (a b : Text)
        → Good values a
        → Good values b
        → is_gt (compare_keys d values a b) ≡ false
        → KeyLe a b
    KeyLe-of_not_gt a b (v, e, h) (w, f, k) n =
        rw (first_value-row a v e, first_value-row b w f)
          (values_below v w h k (ap is_gt (sym (compare_keys-rows a b v w e f)) ∙ n))

    pub KeyLe-of_gt :
        (a b : Text)
        → Good values a
        → Good values b
        → is_gt (compare_keys d values a b) ≡ true
        → KeyLe b a
    KeyLe-of_gt a b (v, e, h) (w, f, k) n =
        rw (first_value-row a v e, first_value-row b w f)
          (values_above v w h k (ap is_gt (sym (compare_keys-rows a b v w e f)) ∙ n))
