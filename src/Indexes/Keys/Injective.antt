-- ===== src/Indexes/Keys/Injective.antt =====
-- The key of an index entry tells its components apart, whatever characters they have.
use sqlite_mem.Prelude.{
  ℕ, zero, suc, ◌+◌, ◌-◌, ◌*◌, ◌/◌, ◌%◌, ◌≤◌, Text, Bool, false, List, [], ◌∷◌, ◌++◌, length, ltb,
  map, ◌≡◌, ◌≢◌, ◌==◌, refl, ap, ◌∙◌, sym, arith, inl, inr, Bool-cases, append-nil,
}
use sqlite_mem.Types.Value.{
  SqlValue, null, integer, bigint, float, real, text, json_text, blob, is_null,
}
use sqlite_mem.Indexes.Keys.{has_null, digits, nat_text, part, piece, join, serialize_entry}

-- The number that decimal digits spell, behind the digits of `n`.
spelled : ℕ → Text → ℕ
spelled n [] = n
spelled n (c ∷ cs) = spelled (n * 10 + (c - 48)) cs

spelled-append : (n c : ℕ) (s : Text) → spelled n (s ++ c ∷ []) ≡ spelled n s * 10 + (c - 48)
unfolding spelled
spelled-append n c [] = refl
spelled-append n c (d ∷ s) = spelled-append (n * 10 + (d - 48)) c s

spelled-digits : (fuel n : ℕ) → n ≤ fuel → spelled 0 (digits fuel n) ≡ n
unfolding spelled digits
spelled-digits zero n l = omega (arith, l)
spelled-digits (suc fuel) n l = elim (Bool-cases (ltb n 10)) [
  | inl last ↦ rw last (omega arith)
  | inr more ↦ rw more (
      spelled-append 0 (48 + n % 10) (digits fuel (n / 10))
      ∙ ground (arith, spelled-digits fuel (n / 10), more, l))
]

nat_text-injective : (m n : ℕ) → nat_text m ≡ nat_text n → m ≡ n
nat_text-injective m n e =
    sym (spelled-digits m m (omega arith)) ∙ ap (spelled 0) e ∙ spelled-digits n n (omega arith)

-- No digit is a colon.
abbrev NoColon : Text → Type 0
NoColon [] = Unit
NoColon (c ∷ cs) = (c ≢ b':') × NoColon cs

NoColon-append : (s : Text) (c : ℕ) → NoColon s → c ≢ b':' → NoColon (s ++ c ∷ [])
NoColon-append [] c n h = (h, tt)
NoColon-append (d ∷ s) c (g, n) h = (g, NoColon-append s c n h)

digits-NoColon : (fuel n : ℕ) → n ≤ fuel → NoColon (digits fuel n)
unfolding digits
digits-NoColon zero n l = ((λ e. omega (arith, e, l)), tt)
digits-NoColon (suc fuel) n l = elim (Bool-cases (ltb n 10)) [
  | inl last ↦ rw last ((λ e. ground (arith, e, last)), tt)
  | inr more ↦ rw more (
      NoColon-append (digits fuel (n / 10)) (48 + n % 10)
        (digits-NoColon fuel (n / 10) (omega (arith, l))) (λ e. omega (arith, e)))
]

cons-injective : (c d : ℕ) (s t : Text) → c ∷ s ≡ d ∷ t → (c ≡ d) × (s ≡ t)
cons-injective c d s t e = (cc, cc)

-- Two texts split at their first colon.
split_colon :
    (s t x y : Text) → NoColon s → NoColon t → s ++ b':' ∷ x ≡ t ++ b':' ∷ y → (s ≡ t) × (x ≡ y)
split_colon [] [] x y a b e = (refl, (cons-injective _ _ x y e).1)
split_colon [] (c ∷ t) x y a (h, b) e = absurd (h (sym (cons-injective _ _ _ _ e).0))
split_colon (c ∷ s) [] x y (h, a) b e = absurd (h (cons-injective _ _ _ _ e).0)
split_colon (c ∷ s) (d ∷ t) x y (h, a) (g, b) e =
    let (same, rest) = cons-injective _ _ _ _ e in
    let (tails, ends) = split_colon s t x y a b rest in (rw (same, tails) refl, ends)

-- Two texts split at the same place.
split_length : (s t x y : Text) → length s ≡ length t → s ++ x ≡ t ++ y → (s ≡ t) × (x ≡ y)
split_length [] [] x y l e = (refl, e)
split_length [] (c ∷ t) x y l e = absurd (omega (arith, l))
split_length (c ∷ s) [] x y l e = absurd (omega (arith, l))
split_length (c ∷ s) (d ∷ t) x y l e =
    let (same, rest) = cons-injective _ _ _ _ e in
    let (tails, ends) = split_length s t x y (omega (arith, l)) rest in
    (rw (same, tails) refl, ends)

not_nil : (s : Text) (c : ℕ) (t : Text) → s ++ c ∷ t ≢ []
not_nil [] c t e = cc
not_nil (d ∷ s) c t e = cc

nil_not_cons : (c : ℕ) (s : Text) → [] ≢ c ∷ s
nil_not_cons c s e = cc

append_assoc_cons : (s t : Text) (c : ℕ) (x : Text) → (s ++ (c ∷ t)) ++ x ≡ s ++ (c ∷ (t ++ x))
append_assoc_cons [] t c x = refl
append_assoc_cons (d ∷ s) t c x = ap (λ u. d ∷ u) (append_assoc_cons s t c x)

-- A piece tells where it ends.
piece-injective : (s t x y : Text) → piece s ++ x ≡ piece t ++ y → (s ≡ t) × (x ≡ y)
piece-injective s t x y e =
    let shifted =
      sym (append_assoc_cons (nat_text (length s)) s b':' x)
      ∙ e
      ∙ append_assoc_cons (nat_text (length t)) t b':' y in
    let (lengths, tails) =
      split_colon (nat_text (length s)) (nat_text (length t)) (s ++ x) (t ++ y)
        (digits-NoColon (length s) (length s) (omega arith))
        (digits-NoColon (length t) (length t) (omega arith)) shifted in
    split_length s t x y (nat_text-injective (length s) (length t) lengths) tails

-- What is behind the first piece of a list.
abbrev behind : List Text → Text
behind [] = []
behind (t ∷ ts) = b'|' ∷ join (t ∷ ts)

join_cons : (s : Text) (ss : List Text) → join (s ∷ ss) ≡ piece s ++ behind ss
unfolding join
join_cons s [] = sym (append-nil (piece s))
join_cons s (t ∷ ts) = refl

join_not_nil : (s : Text) (ss : List Text) → join (s ∷ ss) ≢ []
join_not_nil s ss e =
    not_nil (nat_text (length s)) b':' (s ++ behind ss)
      (sym (append_assoc_cons (nat_text (length s)) s b':' (behind ss)) ∙ sym (join_cons s ss) ∙ e)

heads :
    (s t : Text) (ss ts : List Text)
    → join (s ∷ ss) ≡ join (t ∷ ts)
    → (s ≡ t) × (behind ss ≡ behind ts)
heads s t ss ts e =
    piece-injective s t (behind ss) (behind ts) (sym (join_cons s ss) ∙ e ∙ join_cons t ts)

join-injective : (ss ts : List Text) → join ss ≡ join ts → ss ≡ ts
unfolding join
join-injective [] [] e = refl
join-injective [] (t ∷ ts) e = absurd (join_not_nil t ts (sym e))
join-injective (s ∷ ss) [] e = absurd (join_not_nil s ss e)
join-injective (s ∷ []) (t ∷ []) e = rw (heads s t [] [] e).0 refl
join-injective (s ∷ []) (t ∷ u ∷ ts) e = absurd (nil_not_cons _ _ (heads s t [] (u ∷ ts) e).1)
join-injective (s ∷ r ∷ ss) (t ∷ []) e = absurd (nil_not_cons _ _ (sym (heads s t (r ∷ ss) [] e).1))
join-injective (s ∷ r ∷ ss) (t ∷ u ∷ ts) e =
    let (same, tails) = heads s t (r ∷ ss) (u ∷ ts) e in
    rw (same, join-injective (r ∷ ss) (u ∷ ts) (cons-injective _ _ _ _ tails).1) refl

abbrev starts_z : Text → Bool
starts_z [] = false
starts_z (c ∷ cs) = c == b'z'

module _ {R : Type 0} (to_text : R → Text) where
  -- Two rows of values have one key only if their components are written alike, one by one, whatever
  -- characters these have.
  pub serialize_entry-injective :
      (vs ws : List (SqlValue R))
      → serialize_entry to_text vs ≡ serialize_entry to_text ws
      → map (part to_text) vs ≡ map (part to_text) ws
  unfolding serialize_entry
  serialize_entry-injective vs ws e =
      join-injective (map (part to_text) vs) (map (part to_text) ws) e

  -- Only null is written with a z first.
  is_null-part : (v : SqlValue R) → is_null v ≡ starts_z (part to_text v)
  unfolding part
  is_null-part null = refl
  is_null-part (integer z) = refl
  is_null-part (bigint z) = refl
  is_null-part (float r) = refl
  is_null-part (real r) = refl
  is_null-part (text t) = refl
  is_null-part (json_text t) = refl
  is_null-part (blob b) = refl

  part_null : (v w : SqlValue R) → part to_text v ≡ part to_text w → is_null v ≡ is_null w
  part_null v w e = is_null-part v ∙ ap starts_z e ∙ sym (is_null-part w)

  pub has_null_of_parts :
      (vs ws : List (SqlValue R))
      → map (part to_text) vs ≡ map (part to_text) ws
      → has_null vs ≡ has_null ws
  has_null_of_parts [] [] e = refl
  has_null_of_parts [] (w ∷ ws) e = cc
  has_null_of_parts (v ∷ vs) [] e = cc
  has_null_of_parts (v ∷ vs) (w ∷ ws) e = rw (part_null v w cc, has_null_of_parts vs ws cc) refl
