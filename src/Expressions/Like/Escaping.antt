-- ===== src/Expressions/Like/Escaping.antt =====
-- Escaping makes a LIKE pattern literal.
use sqlite_mem.Prelude.{
  ℕ, ◌==◌, Text, text_eq, text_eq_refl, true, ◌&&◌, some, [], ◌∷◌, map, All, ◌≡◌, refl, ap, ◌∙◌,
}
use sqlite_mem.Errors.{ok}
use sqlite_mem.Expressions.Like.{
  exactly, characters, like_atoms, regex_test, bad_escape, like_match,
}
use sqlite_mem.Expressions.Like.Matching.{single, IsPlain, characters_plain}

-- Each unit behind the escape unit.
pub escaped : ℕ → Text → Text
escaped e [] = []
escaped e (c ∷ s) = e ∷ c ∷ escaped e s

escaped-IsPlain : (e : ℕ) (s : Text) → IsPlain e → All IsPlain s → All IsPlain (escaped e s)
unfolding escaped
escaped-IsPlain e [] h a = tt
escaped-IsPlain e (c ∷ s) h (g, a) = (h, (g, escaped-IsPlain e s h a))

like_atoms-escaped :
    (e : ℕ) (s : Text)
    → like_atoms (some (single e)) true (map single (escaped e s)) ≡ map exactly s
unfolding like_atoms escaped
like_atoms-escaped e [] = refl
like_atoms-escaped e (c ∷ s) = rw (text_eq_refl (single e), like_atoms-escaped e s) refl

regex_test-exactly : (s t : Text) → regex_test (map exactly s) t ≡ text_eq t s
unfolding regex_test text_eq
regex_test-exactly [] [] = refl
regex_test-exactly [] (c ∷ t) = refl
regex_test-exactly (x ∷ s) [] = refl
regex_test-exactly (x ∷ s) (c ∷ t) = ap (λ u. c == x && u) (regex_test-exactly s t)

-- A pattern in which every character stands behind the escape character matches, case-sensitively,
-- exactly the text of those characters, wildcards and escapes among them, if neither the escape
-- character nor those characters are surrogates.
pub like_match-escaped :
    (text s : Text) (e : ℕ)
    → IsPlain e
    → All IsPlain s
    → like_match text (escaped e s) (some (single e)) true ≡ ok (text_eq text s)
unfolding like_match bad_escape characters
like_match-escaped text s e h a =
    rw (characters_plain (escaped e s) (escaped-IsPlain e s h a), like_match)
      (ap ok (ap (λ u. regex_test u text) (like_atoms-escaped e s) ∙ regex_test-exactly s text))
