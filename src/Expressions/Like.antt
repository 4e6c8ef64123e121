-- ===== src/Expressions/Like.antt =====
-- expressions/like.ts: `likeMatch`. The source writes a regular expression, without flags, and tests
-- it; here the expression is the list of its atoms, and the test is what the language gives them.
-- Texts are UTF-16 code units, which the atoms match one by one; a character of the pattern is one
-- unit or a surrogate pair. GLOB is left out.
pub mod Matching
pub mod Escaping
mod Runs
use sqlite_mem.Prelude.{
  ℕ, ◌+◌, ◌-◌, ◌==◌, Text, codes, between, text_eq, Bool, true, false, ◌&&◌, ◌||◌, not, Option,
  none, some, List, [], ◌∷◌, ◌++◌, length, if◌then◌else◌,
}
use sqlite_mem.Errors.{Result, ok, err, SqliteError, sqlite_error, other}

-- `[\s\S]*`, `[\s\S]`, a class of two letters, and a literal unit.
pub data Atom : Type 0 where
  any_units any_unit : Atom
  either : ℕ → ℕ → Atom
  exactly : ℕ → Atom

-- [...text]: the characters of a text.
abbrev pub is_high : ℕ → Bool
is_high c = between 0xd800 0xdbff c

abbrev pub is_low : ℕ → Bool
is_low c = between 0xdc00 0xdfff c

unfoldable pub characters : Text → List Text
characters [] = []
characters (c ∷ []) = (c ∷ []) ∷ []
characters (c ∷ d ∷ s) =
    let one = characters (d ∷ s) in
    let two = characters s in if is_high c && is_low d then (c ∷ d ∷ []) ∷ two else (c ∷ []) ∷ one

-- The units of a literal character.
abbrev pub literal_units : Text → List Atom
literal_units [] = []
literal_units (c ∷ cs) = exactly c ∷ literal_units cs

-- `likeLiteral`, of a character. Only a single unit is a letter.
abbrev pub like_literal : Text → Bool → List Atom
like_literal (c ∷ []) case_sensitive =
    if not case_sensitive && between 65 90 c
    then either c (c + 32) ∷ []
    else if not case_sensitive && between 97 122 c
    then either c (c - 32) ∷ []
    else exactly c ∷ []
like_literal char case_sensitive = literal_units char

-- char === escape
abbrev pub is_escape : Option Text → Text → Bool
is_escape none char = false
is_escape (some e) char = text_eq char e

abbrev pub wildcard : Text → Bool → List Atom
wildcard char case_sensitive =
    if text_eq char (b'%' ∷ [])
    then any_units ∷ []
    else if text_eq char (b'_' ∷ [])
    then any_unit ∷ []
    else like_literal char case_sensitive

-- The loop over the pattern's characters. An escape that ends the pattern stands for itself.
unfoldable pub like_atoms : Option Text → Bool → List Text → List Atom
like_atoms escape b [] = []
like_atoms escape b (char ∷ []) =
    if is_escape escape char then like_literal char b else wildcard char b
like_atoms escape b (char ∷ next ∷ rest) =
    let behind_one = like_atoms escape b (next ∷ rest) in
    let behind_two = like_atoms escape b rest in
    if is_escape escape char
    then like_literal next b ++ behind_two
    else wildcard char b ++ behind_one

-- Does an atom for one unit match it?
abbrev pub fits_unit : Atom → ℕ → Bool
fits_unit any_units c = true
fits_unit any_unit c = true
fits_unit (either a b) c = c == a || c == b
fits_unit (exactly a) c = c == a

-- A star before what `f` tests: it takes nothing, or one unit more.
unfoldable pub star : (Text → Bool) → Text → Bool
star f [] = f []
star f (c ∷ s) = f (c ∷ s) || star f s

-- `new RegExp("^...$").test(text)`
unfoldable pub regex_test : List Atom → Text → Bool
unfolding star
regex_test [] [] = true
regex_test [] (c ∷ s) = false
regex_test (any_units ∷ atoms) s = star (regex_test atoms) s
regex_test (a ∷ atoms) [] = false
regex_test (a ∷ atoms) (c ∷ s) = fits_unit a c && regex_test atoms s

abbrev pub one_character : List Text → Bool
one_character (c ∷ []) = true
one_character _ = false

unfoldable pub bad_escape : Option Text → Bool
unfolding characters
bad_escape none = false
bad_escape (some e) = not (one_character (characters e))

-- `likeMatch`
unfoldable pub like_match : Text → Text → Option Text → Bool → Result Bool
unfolding bad_escape characters like_atoms regex_test
like_match text pattern escape case_sensitive =
    if bad_escape escape
    then err (sqlite_error (codes "ESCAPE expression must be a single character") other)
    else ok (regex_test (like_atoms escape case_sensitive (characters pattern)) text)
