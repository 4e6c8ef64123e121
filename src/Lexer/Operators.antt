-- ===== src/Lexer/Operators.antt =====
-- lexer/tokenize.ts: operators, punctuation and words.
use sqlite_mem.Prelude.{
  ℕ, zero, suc, Text, to_upper, Bool, false, Option, none, some, [], ◌∷◌, ◌==◌, if◌then◌else◌,
}
use sqlite_mem.Lexer.Keywords.{keyword_of}
use sqlite_mem.Lexer.Tokens.{
  TokenKind, ident, dot, comma, semi, lparen, rparen, plus, minus, star, slash, percent, eq, eqeq,
  ne, lt, le, gt, ge, concat, amp, pipe, lshift, rshift, json_arrow, json_arrow2, tilde, keyword,
}
use sqlite_mem.Lexer.Scan.{Pos, Scanned, scanned, gather, advance, is_word_char, take_while}
use sqlite_mem.Lexer.State.{LexState, Step, push_plain}

-- An operator's kind and its number of characters.
pub record Operator : Type 0 where
  pub kind : TokenKind
  pub size : ℕ

abbrev pub op : TokenKind → ℕ → Option Operator
op k n = some (record { kind = k; size = n })

-- `singles[ch]`
unfoldable pub single : ℕ → Option Operator
single c =
    if c == b'.'
    then op dot 1
    else if c == b','
    then op comma 1
    else if c == b';'
    then op semi 1
    else if c == b'('
    then op lparen 1
    else if c == b')'
    then op rparen 1
    else if c == b'+'
    then op plus 1
    else if c == b'-'
    then op minus 1
    else if c == b'*'
    then op star 1
    else if c == b'/'
    then op slash 1
    else if c == b'%'
    then op percent 1
    else if c == b'='
    then op eq 1
    else if c == b'<'
    then op lt 1
    else if c == b'>'
    then op gt 1
    else if c == b'&'
    then op amp 1
    else if c == b'|'
    then op pipe 1
    else if c == b'~'
    then op tilde 1
    else none

-- The two characters `c`, `d` are those of the operator `s`.
abbrev both : ℕ → ℕ → ℕ → ℕ → Bool
both c d x y = if c == x then d == y else false

-- The tests on `two`, in the source's order; `arrow2` says that `>` follows `->`.
unfoldable pub double : ℕ → ℕ → Bool → Option Operator
unfolding single
double c d arrow2 =
    if both c d b'|' b'|'
    then op concat 2
    else if both c d b'-' b'>'
    then (if arrow2 then op json_arrow2 3 else op json_arrow 2)
    else if both c d b'<' b'<'
    then op lshift 2
    else if both c d b'>' b'>'
    then op rshift 2
    else if both c d b'=' b'='
    then op eqeq 2
    else if both c d b'!' b'='
    then op ne 2
    else if both c d b'<' b'>'
    then op ne 2
    else if both c d b'<' b'='
    then op le 2
    else if both c d b'>' b'='
    then op ge 2
    else single c

-- The operator at the front of an input.
unfoldable pub operator : ℕ → Text → Option Operator
unfolding double single
operator c [] = single c
operator c (d ∷ []) = double c d false
operator c (d ∷ e ∷ _) = double c d (e == b'>')

-- `advance()`, `n` times.
unfoldable pub advance_over : ℕ → Text → Pos → Scanned
unfolding advance
advance_over zero input pos = scanned [] input pos
advance_over (suc n) [] pos = scanned [] [] pos
advance_over (suc n) (c ∷ cs) pos = gather c (advance_over n cs (advance c pos))

unfoldable pub operator_token : Operator → Text → LexState → Step
unfolding advance_over
operator_token o input st = push_plain o.kind (advance_over o.size input st.pos) st

-- The kind of a word: its keyword, whatever the case, or an identifier.
unfoldable pub word_kind : Text → TokenKind
unfolding keyword_of
word_kind s = elim (keyword_of (to_upper s)) [ none ↦ ident | some k ↦ keyword k ]

unfoldable pub word : Text → LexState → Step
unfolding take_while word_kind
word input st = let s = take_while is_word_char input st.pos in push_plain (word_kind s.taken) s st
