-- ===== src/Lexer/Quotes.antt =====
-- Quoted text in lexer/tokenize.ts: what is written in quotes is read back, and a blob literal that
-- is never closed is accepted.
use sqlite_mem.Prelude.{
  ℕ, ◌%◌, Text, Bool, true, false, none, some, [], ◌∷◌, ◌++◌, ◌==◌, ◌≡◌, refl, ap, ◌∙◌, inl, inr,
  if◌then◌else◌, length, arith, Bool-cases, All, ==_refl,
}
use sqlite_mem.Errors.{ok}
use sqlite_mem.Lexer.Tokens.{Token, string, ident, blob, text, absent, bytes}
use sqlite_mem.Lexer.Scan.{
  Pos, Scanned, scanned, gather?, advance, quoted_body, hex_body, is_hex, single_quote,
  double_quote,
}
use sqlite_mem.Lexer.State.{
  LexState, string_literal, quoted_identifier, blob_literal, hex_bytes, new_token, push,
}
use sqlite_mem.Lexer.{lex_step, lex_loop, eof_token, tokenize, initial}

-- A text with each `k` in it doubled, as SQL writes it between two `k`.
pub doubled : ℕ → Text → Text
doubled k [] = []
doubled k (c ∷ cs) = let rest = doubled k cs in if c == k then k ∷ k ∷ rest else c ∷ rest

pub quoted : ℕ → Text → Text
quoted k s = k ∷ doubled k s ++ k ∷ []

-- A character that is not the closer is gathered.
quoted_body-cons :
    (b : Bool) (k c : ℕ) (s : Text) (p : Pos)
    → (c == k) ≡ false
    → quoted_body b k (c ∷ s) p ≡ gather? c (quoted_body b k s (advance c p))
unfolding quoted_body
quoted_body-cons b k c [] p h = rw h
quoted_body-cons b k c (d ∷ s) p h = rw h

-- A pair of closers is gathered as one.
quoted_body_pair :
    (k : ℕ) (s : Text) (p : Pos)
    → quoted_body true k (k ∷ k ∷ s) p ≡ gather? k (quoted_body true k s (advance k (advance k p)))
unfolding quoted_body
quoted_body_pair k s p = rw (==_refl k)

-- The loop reads the doubled text back and stops behind the closer.
quoted_body-doubled :
    (k : ℕ) (s : Text) (p : Pos)
    → (q : Pos) × (quoted_body true k (doubled k s ++ k ∷ []) p ≡ some (scanned s [] q))
unfolding doubled
quoted_body-doubled k [] p = (advance k p, unfold quoted_body in ground arith)
quoted_body-doubled k (c ∷ s) p = elim (Bool-cases (c == k)) [
  | inl same ↦
      let (q, e) = quoted_body-doubled k s (advance k (advance k p)) in
      (q, rw same (ground (arith, quoted_body_pair k (doubled k s ++ k ∷ []) p, e)))
  | inr other ↦
      let (q, e) = quoted_body-doubled k s (advance c p) in
      (q, rw other (quoted_body-cons true k c (doubled k s ++ k ∷ []) p other ∙ ap (gather? c) e))
]

abbrev pub start_pos : Pos
start_pos = initial.pos

-- One token, then the end.
tokenize_single :
    (c : ℕ) (cs : Text) (t : Token) (st : LexState)
    → lex_step c cs initial ≡ ok ([], st)
    → st.tokens ≡ t ∷ []
    → tokenize (c ∷ cs) ≡ some (ok (t ∷ eof_token st.pos ∷ []))
unfolding tokenize
tokenize_single c cs t st e h = rw (e, lex_loop) (rw h)

lex_step_string :
    (cs : Text) (s : Scanned) (st : LexState)
    → quoted_body true single_quote cs (advance single_quote st.pos) ≡ some s
    → lex_step single_quote cs st
      ≡ ok (s.rest, push string s.taken (text s.taken) false none st.pos s.pos st)
unfolding lex_step string_literal
lex_step_string cs s st e = rw (e, string_literal)

lex_step_identifier :
    (cs : Text) (s : Scanned) (st : LexState)
    → quoted_body true double_quote cs (advance double_quote st.pos) ≡ some s
    → lex_step double_quote cs st
      ≡ ok (s.rest, push ident s.taken absent false none st.pos s.pos st)
unfolding lex_step quoted_identifier
lex_step_identifier cs s st e = rw (e, quoted_identifier)

-- A string literal: whatever the text, writing it between single quotes, each quote in it doubled,
-- lexes to the one STRING token with that text as value and literal, from the input's start, and the
-- end token.
pub tokenize-quoted :
    (s : Text)
    → (p : Pos) × (tokenize (quoted single_quote s)
        ≡ some (ok (new_token string s (text s) false none start_pos p ∷ eof_token p ∷ [])))
unfolding quoted
tokenize-quoted s =
    let (q, e) = quoted_body-doubled single_quote s (advance single_quote start_pos) in
    (
      q,
      tokenize_single single_quote (doubled single_quote s ++ single_quote ∷ []) _ _
          (lex_step_string _ _ initial e) refl,
    )

-- A quoted identifier: whatever the text, keyword or not, between double quotes with each double
-- quote in it doubled, it lexes to the one IDENT token with that text as value, and the end token.
pub tokenize-quoted_identifier :
    (s : Text)
    → (p : Pos) × (tokenize (quoted double_quote s)
        ≡ some (ok (new_token ident s absent false none start_pos p ∷ eof_token p ∷ [])))
unfolding quoted
tokenize-quoted_identifier s =
    let (q, e) = quoted_body-doubled double_quote s (advance double_quote start_pos) in
    (
      q,
      tokenize_single double_quote (doubled double_quote s ++ double_quote ∷ []) _ _
          (lex_step_identifier _ _ initial e) refl,
    )

-- Hexadecimal digits up to the end of the input: the loop takes them all.
hex_body_open :
    (h : Text) (p : Pos)
    → All (λ c. is_hex c ≡ true) h
    → (q : Pos) × (hex_body h p ≡ some (scanned h [] q))
unfolding hex_body
hex_body_open [] p a = (p, refl)
hex_body_open (c ∷ h) p (a, b) =
    let (q, e) = hex_body_open h (advance c p) b in (q, ground (arith, e))

lex_step_blob :
    (h : Text) (s : Scanned) (st : LexState)
    → hex_body h (advance single_quote (advance b'x' st.pos)) ≡ some s
    → (length s.taken % 2 == 0) ≡ true
    → lex_step b'x' (single_quote ∷ h) st
      ≡ ok (s.rest, push blob s.taken (bytes (hex_bytes s.taken)) false none st.pos s.pos st)
unfolding lex_step blob_literal
lex_step_blob h s st e even = rw (e, blob_literal) (rw even)

-- A blob literal that is never closed is accepted: `x'` and an even number of hexadecimal digits,
-- with no closing quote up to the end of the input, lex to a BLOB token with the digits' bytes.
pub tokenize_open_blob :
    (h : Text)
    → All (λ c. is_hex c ≡ true) h
    → (length h % 2 == 0) ≡ true
    → (p : Pos) × (tokenize (b'x' ∷ single_quote ∷ h)
        ≡ some
            (ok (new_token blob h (bytes (hex_bytes h)) false none start_pos p ∷ eof_token p ∷ [])))
tokenize_open_blob h a even =
    let (q, e) = hex_body_open h (advance single_quote (advance b'x' start_pos)) a in
    (q, tokenize_single b'x' (single_quote ∷ h) _ _ (lex_step_blob h _ initial e even) refl)
