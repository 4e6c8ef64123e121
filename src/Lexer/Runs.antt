-- ===== src/Lexer/Runs.antt =====
-- Concrete runs of the lexer.
use sqlite_mem.Prelude.{
  Text, codes, Option, none, some, List, [], ◌∷◌, ◌≡◌, refl, map, length, false, ◌++◌,
}
use sqlite_mem.Errors.{Result, ok}
use sqlite_mem.Lexer.Tokens.{
  TokenKind, Token, eof, keyword, star, number, ident, ne, param_named, blob, string, text, absent,
  bytes,
}
use sqlite_mem.Lexer.Keywords.{kw_select, kw_from}
use sqlite_mem.Lexer.Scan.{Pos, single_quote, double_quote}
use sqlite_mem.Lexer.State.{new_token, hex_bytes}
use sqlite_mem.Lexer.Spans.{Spans, tokenize_total, tokenize-Spans}
use sqlite_mem.Lexer.Quotes.{
  quoted, start_pos, tokenize-quoted, tokenize-quoted_identifier, tokenize_open_blob,
}
use sqlite_mem.Lexer.{tokenize, eof_token}

abbrev kinds : Option (Result (List Token)) → List TokenKind
kinds (some (ok ts)) = map (λ t. t.kind) ts
kinds _ = []

select_kinds :
    kinds (tokenize (codes "SELECT * /*x*/ from t1 <> 1.5e3 :a"))
    ≡ keyword kw_select ∷ star ∷ keyword kw_from ∷ ident ∷ ne ∷ number ∷ param_named ∷ eof ∷ []
unfolding tokenize
select_kinds = refl

-- A blob literal that is never closed is accepted.
open_blob : kinds (tokenize (codes "x'ab")) ≡ blob ∷ eof ∷ []
unfolding tokenize
open_blob = refl

abbrev query : Text
query = codes "SELECT 'it''s' -- c"

abbrev tokens : Option (Result (List Token)) → List Token
tokens (some (ok ts)) = ts
tokens _ = []

tokenize_total_example : (r : Result (List Token)) × (tokenize query ≡ some r)
tokenize_total_example = tokenize_total query

tokenize-Spans_example :
    (body : List Token) × (p : Pos) × (tokens (tokenize query) ≡ body ++ eof_token p ∷ [])
    × Spans 0 body (length query)
    × (p.i ≡ length query)
unfolding tokenize
tokenize-Spans_example = tokenize-Spans query (tokens (tokenize query)) refl

tokenize-quoted_example :
    (p : Pos) × (tokenize (quoted single_quote (codes "it's"))
      ≡ some (
          ok (
            new_token string (codes "it's") (text (codes "it's")) false none start_pos p
            ∷ eof_token p
            ∷ [])))
tokenize-quoted_example = tokenize-quoted (codes "it's")

tokenize-quoted_identifier_example :
    (p : Pos) × (tokenize (quoted double_quote (codes "select"))
      ≡ some
          (ok (new_token ident (codes "select") absent false none start_pos p ∷ eof_token p ∷ [])))
tokenize-quoted_identifier_example = tokenize-quoted_identifier (codes "select")

tokenize_open_blob_example :
    (p : Pos) × (tokenize (b'x' ∷ single_quote ∷ codes "AB")
      ≡ some (
          ok (
            new_token blob (codes "AB") (bytes (hex_bytes (codes "AB"))) false none start_pos p
            ∷ eof_token p
            ∷ [])))
tokenize_open_blob_example = tokenize_open_blob (codes "AB") (refl, (refl, tt)) refl
