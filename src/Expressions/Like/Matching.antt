-- ===== src/Expressions/Like/Matching.antt =====
-- A LIKE pattern without wildcards matches the texts that are equal to it, ASCII letters whatever
-- their case.
use sqlite_mem.Prelude.{
  ℕ, ◌==◌, Text, lower_unit, ascii_lower, text_eq, Bool, true, false, ◌&&◌, none, List, [], ◌∷◌,
  ◌++◌, map, All, zero, suc, length, ◌≡◌, refl, ap, ◌∙◌, sym, arith, append-nil,
}
use sqlite_mem.Errors.{ok}
use sqlite_mem.Expressions.Like.{
  Atom, any_units, is_high, characters, like_literal, wildcard, like_atoms, regex_test, star,
  bad_escape, like_match,
}

abbrev pub single : ℕ → Text
single c = c ∷ []

-- A unit that begins no surrogate pair.
abbrev pub IsPlain : ℕ → Type 0
IsPlain c = is_high c ≡ false

pub characters_plain : (s : Text) → All IsPlain s → characters s ≡ map single s
unfolding characters
characters_plain [] a = refl
characters_plain (c ∷ []) a = refl
characters_plain (c ∷ d ∷ s) (p, a) = rw (p, characters_plain (d ∷ s) a) refl

-- Not a wildcard, and plain.
abbrev pub IsLiteral : ℕ → Type 0
IsLiteral c = (is_high c ≡ false) × ((c == b'%') ≡ false) × ((c == b'_') ≡ false)

pub IsLiteral-IsPlain : (s : Text) → All IsLiteral s → All IsPlain s
IsLiteral-IsPlain [] a = tt
IsLiteral-IsPlain (c ∷ s) ((p, q, r), a) = (p, IsLiteral-IsPlain s a)

pub like_atoms_cons :
    (b : Bool) (char : Text) (rest : List Text)
    → like_atoms none b (char ∷ rest) ≡ wildcard char b ++ like_atoms none b rest
unfolding like_atoms
like_atoms_cons b char [] = sym (append-nil (wildcard char b))
like_atoms_cons b char (next ∷ rest) = refl

wildcard_literal :
    (c : ℕ) (b : Bool) → IsLiteral c → wildcard (single c) b ≡ like_literal (single c) b
unfolding text_eq
wildcard_literal c b (p, q, r) = rw (q, r) refl

-- The atom of a literal unit, on a unit.
like_literal_test :
    (a c : ℕ) (atoms : List Atom) (s : Text)
    → regex_test (like_literal (single a) false ++ atoms) (c ∷ s)
      ≡ (lower_unit c == lower_unit a && regex_test atoms s)
unfolding regex_test
like_literal_test a c atoms s = ground arith

like_literal_end :
    (a : ℕ) (b : Bool) (atoms : List Atom)
    → regex_test (like_literal (single a) b ++ atoms) [] ≡ false
unfolding regex_test
like_literal_end a b atoms = ground arith

regex_test_literal :
    (p t : Text)
    → All IsLiteral p
    → regex_test (like_atoms none false (map single p)) t ≡ text_eq (ascii_lower t) (ascii_lower p)
unfolding text_eq regex_test like_atoms
regex_test_literal [] [] a = refl
regex_test_literal [] (c ∷ t) a = refl
regex_test_literal (x ∷ p) [] (l, a) =
    rw (like_atoms_cons false (single x) (map single p), wildcard_literal x false l)
      (like_literal_end x false (like_atoms none false (map single p)))
regex_test_literal (x ∷ p) (c ∷ t) (l, a) =
    rw (like_atoms_cons false (single x) (map single p), wildcard_literal x false l)
      (like_literal_test x c (like_atoms none false (map single p)) t
        ∙ ap (λ u. lower_unit c == lower_unit x && u) (regex_test_literal p t a))

-- Without escape and case-sensitivity, a pattern that has no wildcard and no surrogate matches exactly
-- the texts that are equal to it once ASCII letters are made lower-case.
pub like_match_literal :
    (text pattern : Text)
    → All IsLiteral pattern
    → like_match text pattern none false ≡ ok (text_eq (ascii_lower text) (ascii_lower pattern))
unfolding like_match bad_escape
like_match_literal text pattern a =
    rw (characters_plain pattern (IsLiteral-IsPlain pattern a), like_match)
      (ap ok (regex_test_literal pattern text a))

-- Does the text begin with the prefix?
abbrev pub starts_with : Text → Text → Bool
starts_with t [] = true
starts_with [] (x ∷ p) = false
starts_with (c ∷ t) (x ∷ p) = c == x && starts_with t p

star_of_end : (s : Text) → regex_test (any_units ∷ []) s ≡ true
unfolding regex_test star
star_of_end [] = refl
star_of_end (c ∷ s) = ground (arith, star_of_end s)

percent_atoms : like_atoms none false (single b'%' ∷ []) ≡ any_units ∷ []
unfolding like_atoms text_eq
percent_atoms = refl

regex_test_prefix :
    (p t : Text)
    → All IsLiteral p
    → regex_test (like_atoms none false (map single (p ++ b'%' ∷ []))) t
      ≡ starts_with (ascii_lower t) (ascii_lower p)
regex_test_prefix [] t a = rw percent_atoms (star_of_end t)
regex_test_prefix (x ∷ p) [] (l, a) =
    rw (like_atoms_cons false (single x) (map single (p ++ b'%' ∷ [])), wildcard_literal x false l)
      (like_literal_end x false (like_atoms none false (map single (p ++ b'%' ∷ []))))
regex_test_prefix (x ∷ p) (c ∷ t) (l, a) =
    rw (like_atoms_cons false (single x) (map single (p ++ b'%' ∷ [])), wildcard_literal x false l)
      (like_literal_test x c (like_atoms none false (map single (p ++ b'%' ∷ []))) t
        ∙ ap (λ u. lower_unit c == lower_unit x && u) (regex_test_prefix p t a))

IsPlain-append : (p : Text) → All IsPlain p → All IsPlain (p ++ b'%' ∷ [])
IsPlain-append [] a = (refl, tt)
IsPlain-append (c ∷ p) (h, a) = (h, IsPlain-append p a)

-- Such a pattern with % behind it matches exactly the texts that begin with it, once ASCII letters
-- are made lower-case.
pub like_match_prefix :
    (text prefix : Text)
    → All IsLiteral prefix
    → like_match text (prefix ++ b'%' ∷ []) none false
      ≡ ok (starts_with (ascii_lower text) (ascii_lower prefix))
unfolding like_match bad_escape
like_match_prefix text prefix a =
    rw
      (
        characters_plain (prefix ++ b'%' ∷ []) (IsPlain-append prefix (IsLiteral-IsPlain prefix a)),
        like_match,
      )
      (ap ok (regex_test_prefix prefix text a))

-- `_`, so many times.
abbrev pub underscores : ℕ → Text
underscores zero = []
underscores (suc n) = b'_' ∷ underscores n

underscores-IsPlain : (n : ℕ) → All IsPlain (underscores n)
underscores-IsPlain zero = tt
underscores-IsPlain (suc n) = (refl, underscores-IsPlain n)

regex_test-underscores :
    (n : ℕ) (b : Bool) (t : Text)
    → regex_test (like_atoms none b (map single (underscores n))) t ≡ (length t == n)
unfolding regex_test like_atoms text_eq
regex_test-underscores zero b [] = refl
regex_test-underscores zero b (c ∷ t) = ground arith
regex_test-underscores (suc n) b [] =
    rw (like_atoms_cons b (single b'_') (map single (underscores n))) (ground arith)
regex_test-underscores (suc n) b (c ∷ t) =
    rw (like_atoms_cons b (single b'_') (map single (underscores n)))
      (regex_test-underscores n b t ∙ ground arith)

-- A pattern of n times `_` matches exactly the texts of n UTF-16 units, so that a character of two
-- units, a surrogate pair, is matched by two `_` and not by one.
pub like_match-underscores :
    (text : Text) (n : ℕ) (b : Bool)
    → like_match text (underscores n) none b ≡ ok (length text == n)
unfolding like_match bad_escape
like_match-underscores text n b =
    rw (characters_plain (underscores n) (underscores-IsPlain n), like_match)
      (ap ok (regex_test-underscores n b text))
