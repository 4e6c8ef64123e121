-- ===== src/Types/Collation.antt =====
-- What the built-in collations identify.
use sqlite_mem.Prelude.{
  ℕ, zero, suc, Text, codes, [], ◌∷◌, ◌++◌, ◌≡◌, refl, ap, arith, inl, inr, Bool-cases, ◌==◌,
}
use sqlite_mem.Errors.{ok, Result-cases, ok-injective}
use sqlite_mem.Types.Value.{SqlValue, null, integer, bigint, float, real, text, json_text, blob}
use sqlite_mem.Types.{
  BuiltinCollation, binary, nocase, rtrim, keep_before, trim_end, lower_letters, normalize_value,
  builtin_collation, normalize_for_collation,
}

-- Blanks, one after another.
abbrev pub blanks : ℕ → Text
blanks zero = []
blanks (suc n) = 32 ∷ blanks n

trim_end-keep_before :
    (c : ℕ) (s : Text) → trim_end s ≡ s → trim_end (keep_before c s) ≡ keep_before c s
unfolding trim_end
trim_end-keep_before c [] e = elim (Bool-cases (c == 32)) [
  | inl blank ↦ rw blank refl
  | inr other ↦ rw (other, other) refl
]
trim_end-keep_before c (d ∷ ds) e = rw e refl

trim_end_twice : (s : Text) → trim_end (trim_end s) ≡ trim_end s
unfolding trim_end
trim_end_twice [] = refl
trim_end_twice (c ∷ cs) = trim_end-keep_before c (trim_end cs) (trim_end_twice cs)

trim_end-append : (s : Text) (n : ℕ) → trim_end (s ++ blanks n) ≡ trim_end s
unfolding trim_end
trim_end-append [] zero = refl
trim_end-append [] (suc n) = rw (trim_end-append [] n) refl
trim_end-append (c ∷ cs) n = rw (trim_end-append cs n) refl

lower_letters_twice : (s : Text) → lower_letters (lower_letters s) ≡ lower_letters s
unfolding lower_letters
lower_letters_twice [] = refl
lower_letters_twice (c ∷ cs) = ground (arith, lower_letters_twice cs)

module _ {R : Type 0} where
  normalize_value_twice :
      (c : BuiltinCollation) (v : SqlValue R)
      → normalize_value c (normalize_value c v) ≡ normalize_value c v
  unfolding normalize_value
  normalize_value_twice binary v = refl
  normalize_value_twice nocase (text s) = ap text (lower_letters_twice s)
  normalize_value_twice rtrim (text s) = ap text (trim_end_twice s)
  normalize_value_twice nocase null = refl
  normalize_value_twice nocase (integer z) = refl
  normalize_value_twice nocase (real r) = refl
  normalize_value_twice nocase (bigint z) = refl
  normalize_value_twice nocase (float r) = refl
  normalize_value_twice nocase (json_text s) = refl
  normalize_value_twice nocase (blob b) = refl
  normalize_value_twice rtrim null = refl
  normalize_value_twice rtrim (integer z) = refl
  normalize_value_twice rtrim (real r) = refl
  normalize_value_twice rtrim (bigint z) = refl
  normalize_value_twice rtrim (float r) = refl
  normalize_value_twice rtrim (json_text s) = refl
  normalize_value_twice rtrim (blob b) = refl

  -- The collation of a normalization that succeeded.
  normalize-cases :
      (to_upper : Text → Text) (v w : SqlValue R) (name : Text)
      → normalize_for_collation to_upper v name ≡ ok w
      → (c : BuiltinCollation) × (builtin_collation to_upper name ≡ ok c)
        × (normalize_value c v ≡ w)
  unfolding normalize_for_collation
  normalize-cases to_upper v w name e = elim (Result-cases (builtin_collation to_upper name)) [
    | inr (x, fails) ↦ cc (rw (fails, normalize_for_collation) at e)
    | inl (c, found) ↦ (c, found, ok-injective _ _ (rw (found, normalize_for_collation) at e))
  ]

  -- What a built-in collation has made of a value is not changed by it again: a value that was
  -- normalized under a name is normalized under that name to itself.
  pub normalize_twice :
      (to_upper : Text → Text) (v w : SqlValue R) (name : Text)
      → normalize_for_collation to_upper v name ≡ ok w
      → normalize_for_collation to_upper w name ≡ ok w
  unfolding normalize_for_collation
  normalize_twice to_upper v w name e =
      let (c, found, done) = normalize-cases to_upper v w name e in
      rw (found, ← done) (ap ok (normalize_value_twice c v))

  -- Under a name that is spelled RTRIM in capitals, a text and the same text with blanks behind it
  -- are normalized to the same value.
  pub normalize_rtrim :
      (to_upper : Text → Text) (s name : Text) (n : ℕ)
      → to_upper name ≡ codes "RTRIM"
      → normalize_for_collation to_upper {R = R} (text (s ++ blanks n)) name
        ≡ normalize_for_collation to_upper (text s) name
  unfolding normalize_for_collation builtin_collation
  normalize_rtrim to_upper s name n e = rw (e, trim_end-append s n) refl
