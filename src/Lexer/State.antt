-- ===== src/Lexer/State.antt =====
-- lexer/tokenize.ts: the variables of `tokenize`, and the handlers that read one token each.
-- A handler takes the state at the token's first character and the input from that character on,
-- and returns the input and the state behind the token, or what the source throws.
use sqlite_mem.Prelude.{
  ℕ, ◌+◌, ◌*◌, ◌-◌, ◌%◌, Text, codes, Bool, true, false, Option, none, some, List, [], ◌∷◌, ◌++◌,
  ◌==◌, if◌then◌else◌, length, between, String, not,
}
use sqlite_mem.Errors.{sqlite_error, syntax, Result, ok, err}
use sqlite_mem.Lexer.Tokens.{TokenKind, Token, Literal, ident, string, blob, absent, text, bytes}
use sqlite_mem.Lexer.Scan.{
  Pos, Scanned, advance, single_quote, double_quote, take_while, comment_body, quoted_body,
  hex_body,
}

pub record LexState : Type 0 where
  pub pos : Pos
  pub tokens : List Token
  pub next_parameter_index : ℕ
  pub named_parameter_indexes : List (Text × ℕ)

-- What a handler returns.
abbrev pub Step : Type 0
Step = Result (Text × LexState)

abbrev pub throw_syntax : String → Step
throw_syntax m = err (sqlite_error (codes m) syntax)

-- The token between the positions `before` and `after`.
abbrev pub new_token : TokenKind → Text → Literal → Bool → Option ℕ → (before after : Pos) → Token
new_token kind value literal real index before after = record {
  kind = kind;
  value = value;
  literal = literal;
  force_real = real;
  index = index;
  line = before.line;
  column = before.column;
  start = before.i;
  end = after.i;
}

-- `push(kind, start, startLine, startCol, value, extra)` at the position `after`, where `i` stands.
abbrev pub push :
    TokenKind → Text → Literal → Bool → Option ℕ → (before after : Pos) → LexState → LexState
push kind value literal real index before after st = record st {
  pos = after;
  tokens = st.tokens ++ new_token kind value literal real index before after ∷ [];
}

-- A token with no literal, no index.
abbrev pub push_plain : TokenKind → Scanned → LexState → Step
push_plain kind s st = ok (s.rest, push kind s.taken absent false none st.pos s.pos st)

abbrev move : Text → Pos → LexState → Step
move rest p st = ok (rest, record st { pos = p })

-- Whitespace: one character.
unfoldable pub white_space : ℕ → Text → LexState → Step
unfolding advance
white_space c cs st = move cs (advance c st.pos) st

-- `--` comments: up to the line's end, which stays.
unfoldable pub line_comment : Text → LexState → Step
unfolding take_while
line_comment input st = let s = take_while (λ c. not (c == 10)) input st.pos in move s.rest s.pos st

after_comment : Option Scanned → LexState → Step
after_comment none st = throw_syntax "unterminated comment"
after_comment (some s) st = move s.rest s.pos st

-- Block comments, with `cs` behind the opening `/*`.
unfoldable pub block_comment : Text → LexState → Step
unfolding after_comment comment_body advance
block_comment cs st = after_comment (comment_body cs (advance b'*' (advance b'/' st.pos))) st

after_string : Option Scanned → LexState → Step
after_string none st = throw_syntax "unrecognized token: incomplete string literal"
after_string (some s) st =
    ok (s.rest, push string s.taken (text s.taken) false none st.pos s.pos st)

-- String literals, with `cs` behind the opening quote.
unfoldable pub string_literal : Text → LexState → Step
unfolding after_string quoted_body advance
string_literal cs st =
    after_string (quoted_body true single_quote cs (advance single_quote st.pos)) st

after_identifier : Option Scanned → LexState → Step
after_identifier none st = throw_syntax "unrecognized token: incomplete identifier"
after_identifier (some s) st = push_plain ident s st

-- Quoted identifiers: "…", […] and `…`.
unfoldable pub quoted_identifier : ℕ → Text → LexState → Step
unfolding after_identifier quoted_body advance
quoted_identifier ch cs st =
    let closer = if ch == b'[' then b']' else ch in
    after_identifier (quoted_body (ch == double_quote) closer cs (advance ch st.pos)) st

-- The value of one hexadecimal digit.
abbrev hex_value : ℕ → ℕ
hex_value c = if between b'0' b'9' c then c - 48 else if between b'a' b'f' c then c - 87 else c - 55

-- `Number.parseInt(hex.slice(j * 2, j * 2 + 2), 16)` for each `j`.
unfoldable pub hex_bytes : Text → List ℕ
hex_bytes (a ∷ b ∷ cs) = (hex_value a * 16 + hex_value b) ∷ hex_bytes cs
hex_bytes _ = []

after_hex : Option Scanned → LexState → Step
after_hex none st = throw_syntax "unrecognized token: invalid blob literal"
after_hex (some s) st =
    if length s.taken % 2 == 0
    then ok (s.rest, push blob s.taken (bytes (hex_bytes s.taken)) false none st.pos s.pos st)
    else throw_syntax "unrecognized token: invalid blob literal"

-- Blob literals, with `cs` behind the opening `X'`.
unfoldable pub blob_literal : ℕ → Text → LexState → Step
unfolding after_hex hex_bytes hex_body advance
blob_literal ch cs st = after_hex (hex_body cs (advance single_quote (advance ch st.pos))) st
