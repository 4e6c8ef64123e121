-- ===== src/Indexes/Search/Scanning.antt =====
-- The rowids of a slice of the keys are those of all keys, if the test fails outside the slice.
use sqlite_mem.Prelude.{
  ℕ, zero, suc, ◌-◌, Text, Bool, false, List, [], ◌∷◌, ◌++◌, take, drop, All, ◌≡◌, refl, ap, sym,
  ◌∙◌, arith, inl, inr, Bool-cases, append-nil, append_assoc,
}
use sqlite_mem.Prelude.Int.{ℤ}
use sqlite_mem.Storage.Cow.Maps.{Map, lookup}
use sqlite_mem.Indexes.{or_none}
use sqlite_mem.Indexes.Search.{collect}

take-append-drop : {A : Type 0} (n : ℕ) (xs : List A) → take n xs ++ drop n xs ≡ xs
take-append-drop zero xs = refl
take-append-drop (suc n) [] = refl
take-append-drop (suc n) (x ∷ xs) = ap (λ t. x ∷ t) (take-append-drop n xs)

take_nil : {A : Type 0} (n : ℕ) → take {A = A} n [] ≡ []
take_nil zero = refl
take_nil (suc n) = refl

take-drop : {A : Type 0} (s e : ℕ) (xs : List A) → take (e - s) (drop s xs) ≡ drop s (take e xs)
take-drop zero e xs = let whole : e - 0 ≡ e = omega arith in rw whole refl
take-drop (suc s) zero xs = let nothing : 0 - suc s ≡ 0 = omega arith in rw nothing refl
take-drop (suc s) (suc e) [] = take_nil (suc e - suc s)
take-drop (suc s) (suc e) (x ∷ xs) =
    let same : suc e - suc s ≡ e - s = omega arith in rw same (take-drop s e xs)

All-take-take :
    {A : Type 0} (P : A → Type 0) (s e : ℕ) (xs : List A)
    → All P (take s xs)
    → All P (take s (take e xs))
All-take-take P zero e xs h = tt
All-take-take P (suc s) zero xs h = tt
All-take-take P (suc s) (suc e) [] h = tt
All-take-take P (suc s) (suc e) (x ∷ xs) (p, h) = (p, All-take-take P s e xs h)

module _ (test : Text → Bool) (entries : Map (List ℤ)) where
  collect-append :
      (xs ys : List Text)
      → collect test entries (xs ++ ys) ≡ collect test entries xs ++ collect test entries ys
  unfolding collect
  collect-append [] ys = refl
  collect-append (x ∷ xs) ys = elim (Bool-cases (test x)) [
    | inl passes ↦
        rw (passes, collect-append xs ys)
          (sym (
            append_assoc (or_none (lookup x entries)) (collect test entries xs)
              (collect test entries ys)))
    | inr fails ↦ rw fails (collect-append xs ys)
  ]

  collect_none : (xs : List Text) → All (λ x. test x ≡ false) xs → collect test entries xs ≡ []
  unfolding collect
  collect_none [] h = refl
  collect_none (x ∷ xs) (fails, h) = rw fails (collect_none xs h)

  pub collect_slice :
      (keys : List Text) (s e : ℕ)
      → All (λ key. test key ≡ false) (take s keys)
      → All (λ key. test key ≡ false) (drop e keys)
      → collect test entries (take (e - s) (drop s keys)) ≡ collect test entries keys
  collect_slice keys s e front back =
      let fails : Text → Type 0 = λ key. test key ≡ false in
      let inner = take e keys in
      let ids = collect test entries in
      ap ids (take-drop s e keys)
      ∙ sym (
          collect-append (take s inner) (drop s inner)
          ∙ ap (λ t. t ++ ids (drop s inner))
              (collect_none (take s inner) (All-take-take fails s e keys front)))
      ∙ ap ids (take-append-drop s inner)
      ∙ sym (
          collect-append inner (drop e keys)
          ∙ ap (λ t. ids inner ++ t) (collect_none (drop e keys) back)
          ∙ append-nil (ids inner))
      ∙ ap ids (take-append-drop e keys)
