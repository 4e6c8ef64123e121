-- ===== src/Lexer/Tokens.antt =====
-- lexer/tokenize.ts: token kinds and tokens.
use sqlite_mem.Prelude.{ℕ, Text, Bool, true, false, Option, List}
use sqlite_mem.Lexer.Keywords.{Keyword}

-- `TokenKind`: the literal, operator and punctuation kinds, and the keywords.
pub data TokenKind : Type 0 where
  eof ident string number blob param_pos param_named dot comma semi lparen rparen : TokenKind
  plus minus star slash percent eq eqeq ne lt le gt ge concat amp pipe lshift rshift : TokenKind
  json_arrow json_arrow2 tilde : TokenKind
  keyword : Keyword → TokenKind

-- What a token's `literal` holds. `exact n` is a JavaScript number that is an integer, `bigint n` a
-- BigInt, and `atof s` the double that `sqliteAtoF(s)` returns, kept as that call.
pub data Literal : Type 0 where
  absent : Literal
  text : Text → Literal
  exact : ℕ → Literal
  bigint : ℕ → Literal
  atof : Text → Literal
  bytes : List ℕ → Literal

pub record Token : Type 0 where
  pub kind : TokenKind
  pub value : Text
  pub literal : Literal
  pub force_real : Bool
  pub index : Option ℕ
  pub line : ℕ
  pub column : ℕ
  pub start : ℕ
  pub end : ℕ

-- `isKeyword`: every kind outside the source's list of literals and punctuation.
unfoldable pub is_keyword : TokenKind → Bool
is_keyword (keyword k) = true
is_keyword _ = false
