-- ===== src/Lexer/Progress/Words.antt =====
-- Parameters, numbers, operators and words of lexer/tokenize.ts read on.
use sqlite_mem.Prelude.{
  ℕ, zero, suc, ◌+◌, ◌≤◌, Text, Bool, true, false, ◌||◌, some, [], ◌∷◌, ◌++◌, ◌==◌, ◌≡◌, refl, inl,
  inr, if◌then◌else◌, length, arith, Bool-cases, Option-cases, to_lower, max,
}
use sqlite_mem.Lexer.Scan.{
  Pos, Scanned, advance, take_while, is_digit, is_name_char, is_word_char, is_word_start,
}
use sqlite_mem.Lexer.Covers.{Covers, i-advance, take_while-Covers, take_while-shorter}
use sqlite_mem.Lexer.State.{LexState}
use sqlite_mem.Lexer.Progress.{Reads, push-Advanced}
use sqlite_mem.Lexer.Words.{
  decimal, rounded, positional_parameter, remember_name, named_parameter, Numeral, fraction,
  mantissa, exponent_digits, exponent_sign, exponent, number_literal,
}
use sqlite_mem.Lexer.Operators.{
  Operator, single, double, operator, advance_over, operator_token, word,
}

-- A numeral's text is read off the front, like a scan's.
fraction-Covers : (whole s : Text) (p : Pos) → Covers (length s) p (fraction whole s p).read
unfolding fraction
fraction-Covers whole [] p = omega arith
fraction-Covers whole (c ∷ cs) p =
    ground (arith, take_while-Covers is_digit cs (advance c p), i-advance c p)

mantissa-Covers : (c : ℕ) (cs : Text) (p : Pos) → Covers (suc (length cs)) p (mantissa c cs p).read
unfolding mantissa
mantissa-Covers c cs p =
    let whole = take_while is_digit (c ∷ cs) p in
    ground (
      arith,
      take_while-Covers is_digit cs (advance c p),
      i-advance c p,
      take_while-Covers is_digit (c ∷ cs) p,
      fraction-Covers whole.taken whole.rest whole.pos,
    )

mantissa-shorter :
    (c : ℕ) (cs : Text) (p : Pos)
    → (is_digit c || (c == b'.')) ≡ true
    → length (mantissa c cs p).read.rest ≤ length cs
unfolding mantissa
mantissa-shorter c cs p h =
    let whole = take_while is_digit (c ∷ cs) p in
    ground (
      arith,
      take_while-Covers is_digit cs (advance c p),
      take_while-shorter is_digit c cs p,
      fraction-Covers whole.taken whole.rest whole.pos,
    )

exponent_digits-Covers :
    (t s : Text) (p : Pos) (r : Scanned) → exponent_digits t s p ≡ some r → Covers (length s) p r
unfolding exponent_digits
exponent_digits-Covers t s p r e = ground (arith, take_while-Covers is_digit s p)

exponent_sign-Covers :
    (t s : Text) (p : Pos) (r : Scanned) → exponent_sign t s p ≡ some r → Covers (length s) p r
unfolding exponent_sign
exponent_sign-Covers t [] p r e = cc
exponent_sign-Covers t (c ∷ cs) p r e = ground (
  arith,
  i-advance c p,
  exponent_digits-Covers (t ++ c ∷ []) cs (advance c p) r,
  exponent_digits-Covers t (c ∷ cs) p r,
)

exponent-Covers :
    (b : Bool) (t s : Text) (p : Pos) (n : Numeral)
    → exponent b t s p ≡ some n
    → Covers (length s) p n.read
unfolding exponent
exponent-Covers b t [] p n e = ground arith
exponent-Covers b t (c ∷ cs) p n e =
    ground (arith, i-advance c p, exponent_sign-Covers (t ++ c ∷ []) cs (advance c p) n.read)

tokens-remember_name : (name : Text) (st : LexState) → (remember_name name st).tokens ≡ st.tokens
unfolding remember_name
tokens-remember_name name st = ground arith

module _ (st : LexState) where
  pub positional_parameter-Reads :
      (cs : Text) → Reads (suc (length cs)) st (positional_parameter cs st)
  unfolding positional_parameter
  positional_parameter-Reads cs =
      let s = take_while is_digit cs (advance b'?' st.pos) in
      let v = take_while-Covers is_digit cs (advance b'?' st.pos) in
      let index =
        if length s.taken == 0 then st.next_parameter_index else rounded (decimal s.taken) in
      let st' = record st {
        next_parameter_index = max st.next_parameter_index (rounded (index + 1));
      } in
      push-Advanced _ st st' s _ _ _ _ _ refl (omega (arith, i-advance b'?' st.pos)) (omega arith)

  pub named_parameter-Reads :
      (c : ℕ) (cs : Text) → Reads (suc (length cs)) st (named_parameter c cs st)
  unfolding named_parameter
  named_parameter-Reads c cs =
      let s = take_while is_name_char cs (advance c st.pos) in
      let v = take_while-Covers is_name_char cs (advance c st.pos) in
      elim (Bool-cases (length s.taken == 0)) [
        | inl e ↦ rw e tt
        | inr e ↦ rw e (
            push-Advanced _ st (remember_name (to_lower (c ∷ s.taken)) st)
              (record s { taken = c ∷ s.taken }) _ _ _ _ _
              (tokens-remember_name (to_lower (c ∷ s.taken)) st) (omega (arith, i-advance c st.pos))
              (omega arith))
      ]

  pub number_literal-Reads :
      (c : ℕ) (cs : Text)
      → (is_digit c || (c == b'.')) ≡ true
      → Reads (suc (length cs)) st (number_literal c cs st)
  unfolding number_literal
  number_literal-Reads c cs h =
      let m = mantissa c cs st.pos in
      let v = mantissa-Covers c cs st.pos in
      let w = mantissa-shorter c cs st.pos h in
      elim (Option-cases (exponent m.is_float m.read.taken m.read.rest m.read.pos)) [
        | inl e ↦ rw e tt
        | inr (n, e) ↦
            let u = exponent-Covers m.is_float m.read.taken m.read.rest m.read.pos n e in
            rw e (push-Advanced _ st st n.read _ _ _ _ _ refl (omega arith) (omega arith))
      ]

-- An operator has a character at least.
single-size : (c : ℕ) (o : Operator) → single c ≡ some o → 1 ≤ o.size
unfolding single
single-size c o e = ground arith

double-size : (c d : ℕ) (b : Bool) (o : Operator) → double c d b ≡ some o → 1 ≤ o.size
unfolding double
double-size c d b o e = ground (arith, single-size c o)

operator-size : (c : ℕ) (cs : Text) (o : Operator) → operator c cs ≡ some o → 1 ≤ o.size
unfolding operator
operator-size c [] o e = single-size c o e
operator-size c (d ∷ []) o e = double-size c d false o e
operator-size c (d ∷ x ∷ cs) o e = double-size c d _ o e

advance_over-Covers : (n : ℕ) (s : Text) (p : Pos) → Covers (length s) p (advance_over n s p)
unfolding advance_over
advance_over-Covers zero s p = omega arith
advance_over-Covers (suc n) [] p = omega arith
advance_over-Covers (suc n) (c ∷ cs) p =
    omega (arith, advance_over-Covers n cs (advance c p), i-advance c p)

advance_over-shorter :
    (n c : ℕ) (cs : Text) (p : Pos) → 1 ≤ n → length (advance_over n (c ∷ cs) p).rest ≤ length cs
unfolding advance_over
advance_over-shorter zero c cs p h = absurd (omega arith)
advance_over-shorter (suc n) c cs p h = omega (arith, advance_over-Covers n cs (advance c p))

module _ (st : LexState) where
  pub operator_token-Reads :
      (c : ℕ) (cs : Text) (o : Operator)
      → operator c cs ≡ some o
      → Reads (suc (length cs)) st (operator_token o (c ∷ cs) st)
  unfolding operator_token
  operator_token-Reads c cs o e =
      let s = advance_over o.size (c ∷ cs) st.pos in
      let v = advance_over-Covers o.size (c ∷ cs) st.pos in
      let w = advance_over-shorter o.size c cs st.pos (operator-size c cs o e) in
      push-Advanced _ st st s _ _ _ _ _ refl (omega arith) (omega arith)

  pub word-Reads :
      (c : ℕ) (cs : Text) → is_word_start c ≡ true → Reads (suc (length cs)) st (word (c ∷ cs) st)
  unfolding word
  word-Reads c cs h =
      let s = take_while is_word_char (c ∷ cs) st.pos in
      let v = take_while-Covers is_word_char (c ∷ cs) st.pos in
      let w = take_while-shorter is_word_char c cs st.pos (ground arith) in
      push-Advanced _ st st s _ _ _ _ _ refl (omega arith) (omega arith)
