-- ===== src/Lexer/Progress.antt =====
-- Every handler of lexer/tokenize.ts reads on: the input gets shorter, the index moves by what was
-- read, and at most one token is pushed, over exactly the characters that were read.
pub mod Words
pub mod Loop
use sqlite_mem.Prelude.{
  ℕ, zero, suc, ◌+◌, ◌%◌, ◌≤◌, ◌<◌, Text, Bool, true, false, ◌&&◌, ◌||◌, Option, none, some, List,
  [], ◌∷◌, ◌++◌, ◌==◌, ◌≡◌, refl, ◌⊎◌, inl, inr, if◌then◌else◌, length, arith, Bool-cases,
  Option-cases, not,
}
use sqlite_mem.Errors.{Result, ok, err, SqliteError}
use sqlite_mem.Lexer.Tokens.{Token, TokenKind, Literal}
use sqlite_mem.Lexer.Scan.{
  Pos, Scanned, scanned, gather, advance, take_while, comment_body, quoted_body, hex_body,
  single_quote, double_quote, is_digit, is_name_char, is_word_char, is_word_start,
}
use sqlite_mem.Lexer.Covers.{
  Covers, i-advance, take_while-Covers, take_while-shorter, comment_body-Covers, hex_body-Covers,
  quoted_body-Covers,
}
use sqlite_mem.Lexer.State.{
  LexState, Step, push, white_space, line_comment, block_comment, string_literal, quoted_identifier,
  blob_literal, new_token,
}

-- Nothing is pushed, or one token that spans what was read.
abbrev pub Extends : LexState → LexState → Type 0
Extends st st' =
    (st'.tokens ≡ st.tokens)
    ⊎ ((t : Token) × (st'.tokens ≡ st.tokens ++ t ∷ [])
        × (t.start ≡ st.pos.i)
        × (t.end ≡ st'.pos.i))

pub record Advanced (n : ℕ) (st : LexState) (rest : Text) (st' : LexState) : Type 0 where
  pub shorter : length rest < n
  pub counted : st'.pos.i + length rest ≡ st.pos.i + n
  pub extends : Extends st st'

-- `n` characters are left at `st`; a throw reads nothing.
abbrev pub Reads : ℕ → LexState → Step → Type 0
Reads n st (ok (rest, st')) = Advanced n st rest st'
Reads n st (err e) = Unit {0}

-- A scan that reads something, and pushes its token.
pub push-Advanced :
    (n : ℕ) (st st₀ : LexState) (s : Scanned) (k : TokenKind) (v : Text) (l : Literal) (b : Bool)
    (x : Option ℕ)
    → st₀.tokens ≡ st.tokens
    → s.pos.i + length s.rest ≡ st.pos.i + n
    → length s.rest < n
    → Advanced n st s.rest (push k v l b x st.pos s.pos st₀)
push-Advanced n st st₀ s k v l b x same counted shorter = record {
  shorter = shorter;
  counted = counted;
  extends = inr (new_token k v l b x st.pos s.pos, rw same, refl, refl);
}

module _ (st : LexState) where
  pub white_space-Reads : (c : ℕ) (cs : Text) → Reads (suc (length cs)) st (white_space c cs st)
  unfolding white_space
  white_space-Reads c cs = record {
    shorter = omega arith;
    counted = omega (arith, i-advance c st.pos);
    extends = inl refl;
  }

  pub line_comment-Reads :
      (c : ℕ) (cs : Text)
      → (c == 10) ≡ false
      → Reads (suc (length cs)) st (line_comment (c ∷ cs) st)
  unfolding line_comment
  line_comment-Reads c cs h =
      let f = λ (c : ℕ). not (c == 10) in
      record {
        shorter = omega (arith, take_while-shorter f c cs st.pos (rw h));
        counted = (take_while-Covers f (c ∷ cs) st.pos).counted;
        extends = inl refl;
      }

  pub block_comment-Reads : (cs : Text) → Reads (suc (suc (length cs))) st (block_comment cs st)
  unfolding block_comment
  block_comment-Reads cs =
      let p = advance b'*' (advance b'/' st.pos) in
      elim (Option-cases (comment_body cs p)) [
        | inl e ↦ rw e tt
        | inr (s, e) ↦
            let v = comment_body-Covers cs p s e in
            let here : s.pos.i + length s.rest ≡ st.pos.i + suc (suc (length cs)) =
              omega (arith, i-advance b'/' st.pos, i-advance b'*' (advance b'/' st.pos)) in
            rw e (record { shorter = omega arith; counted = here; extends = inl refl })
      ]

  pub string_literal-Reads : (cs : Text) → Reads (suc (length cs)) st (string_literal cs st)
  unfolding string_literal
  string_literal-Reads cs =
      let p = advance single_quote st.pos in
      elim (Option-cases (quoted_body true single_quote cs p)) [
        | inl e ↦ rw e tt
        | inr (s, e) ↦
            let v = quoted_body-Covers true single_quote cs p s e in
            rw e (
              push-Advanced _ st st s _ _ _ _ _ refl (omega (arith, i-advance single_quote st.pos))
                (omega arith))
      ]

  pub quoted_identifier-Reads :
      (ch : ℕ) (cs : Text) → Reads (suc (length cs)) st (quoted_identifier ch cs st)
  unfolding quoted_identifier
  quoted_identifier-Reads ch cs =
      let p = advance ch st.pos in
      let closer = if ch == b'[' then b']' else ch in
      elim (Option-cases (quoted_body (ch == double_quote) closer cs p)) [
        | inl e ↦ rw e tt
        | inr (s, e) ↦
            let v = quoted_body-Covers (ch == double_quote) closer cs p s e in
            rw e (
              push-Advanced _ st st s _ _ _ _ _ refl (omega (arith, i-advance ch st.pos))
                (omega arith))
      ]

  pub blob_literal-Reads :
      (ch : ℕ) (cs : Text) → Reads (suc (suc (length cs))) st (blob_literal ch cs st)
  unfolding blob_literal
  blob_literal-Reads ch cs =
      let p = advance single_quote (advance ch st.pos) in
      elim (Option-cases (hex_body cs p)) [
        | inl e ↦ rw e tt
        | inr (s, e) ↦
            let v = hex_body-Covers cs p s e in
            let here : s.pos.i + length s.rest ≡ st.pos.i + suc (suc (length cs)) =
              omega (arith, i-advance ch st.pos, i-advance single_quote (advance ch st.pos)) in
            rw e (elim (Bool-cases (length s.taken % 2 == 0)) [
              | inl even ↦ rw even (push-Advanced _ st st s _ _ _ _ _ refl here (omega arith))
              | inr odd ↦ rw odd tt
            ])
      ]
