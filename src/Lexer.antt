-- ===== src/Lexer.antt =====
-- lexer/tokenize.ts: `tokenize`.
pub mod Keywords
pub mod Tokens
pub mod Scan
pub mod State
pub mod Words
pub mod Operators
mod Runs
pub mod Covers
pub mod Progress
pub mod Spans
pub mod Quotes
use sqlite_mem.Prelude.{
  ℕ, zero, suc, ◌+◌, Text, codes, Bool, true, false, ◌&&◌, ◌||◌, Option, none, some, List, [], ◌∷◌,
  ◌++◌, ◌==◌, if◌then◌else◌, length,
}
use sqlite_mem.Errors.{SqliteError, sqlite_error, syntax, Result, ok, err}
use Tokens.{Token, eof, absent}
use Scan.{Pos, is_digit, is_word_start, single_quote, double_quote, back_quote}
use State.{
  LexState, Step, throw_syntax, white_space, line_comment, block_comment, string_literal,
  quoted_identifier, blob_literal,
}
use Words.{positional_parameter, named_parameter, number_literal}
use Operators.{operator, operator_token, word, Operator}

abbrev pub is_space : ℕ → Bool
is_space c = c == 32 || c == 9 || c == 10 || c == 13 || c == 12

-- `peek(1)` is the character `d`.
abbrev pub next_is : ℕ → Text → Bool
next_is d [] = false
next_is d (c ∷ cs) = c == d

abbrev pub next_is_digit : Text → Bool
next_is_digit [] = false
next_is_digit (c ∷ cs) = is_digit c

-- What follows the character after the current one.
abbrev pub behind : Text → Text
behind [] = []
behind (c ∷ cs) = cs

-- The last branches of the loop's body: an operator, a word, or no token at all.
unfoldable pub lex_rest : ℕ → Text → LexState → Step
unfolding operator operator_token word
lex_rest c cs st = elim (operator c cs) [
  | some o ↦ operator_token o (c ∷ cs) st
  | none ↦
      if is_word_start c
      then word (c ∷ cs) st
      else err (sqlite_error (codes "unrecognized token: \"" ++ c ∷ double_quote ∷ []) syntax)
]

-- One round of the loop of `tokenize`, at the character `c` with `cs` behind it.
unfoldable pub lex_step : ℕ → Text → LexState → Step
unfolding lex_rest white_space line_comment block_comment string_literal quoted_identifier
    blob_literal positional_parameter named_parameter number_literal
lex_step c cs st =
    if is_space c
    then white_space c cs st
    else if c == b'-' && next_is b'-' cs
    then line_comment (c ∷ cs) st
    else if c == b'/' && next_is b'*' cs
    then block_comment (behind cs) st
    else if c == single_quote
    then string_literal cs st
    else if c == double_quote || c == b'[' || c == back_quote
    then quoted_identifier c cs st
    else if (c == b'x' || c == b'X') && next_is single_quote cs
    then blob_literal c (behind cs) st
    else if c == b'?'
    then positional_parameter cs st
    else if c == b':' || c == b'@' || c == b'$'
    then named_parameter c cs st
    else if is_digit c || c == b'.' && next_is_digit cs
    then number_literal c cs st
    else lex_rest c cs st

-- The token that `tokenize` pushes at the end.
abbrev pub eof_token : Pos → Token
eof_token p = record {
  kind = eof;
  value = [];
  literal = absent;
  force_real = false;
  index = none;
  line = p.line;
  column = p.column;
  start = p.i;
  end = p.i;
}

-- The loop, on fuel: `none` is the end of the fuel, and no value of the program.
unfoldable pub lex_loop : ℕ → Text → LexState → Option (Result (List Token))
lex_loop fuel [] st = some (ok (st.tokens ++ eof_token st.pos ∷ []))
lex_loop zero (c ∷ cs) st = none
lex_loop (suc fuel) (c ∷ cs) st = elim (lex_step c cs st) [
  | ok (rest, st') ↦ lex_loop fuel rest st'
  | err e ↦ some (err e)
]

abbrev pub initial : LexState
initial = record {
  pos = record { i = 0; line = 1; column = 1 };
  tokens = [];
  next_parameter_index = 1;
  named_parameter_indexes = [];
}

-- Each round reads a character at least, so `input.length` rounds are enough.
unfoldable pub tokenize : Text → Option (Result (List Token))
unfolding lex_loop lex_step
tokenize input = lex_loop (length input) input initial
