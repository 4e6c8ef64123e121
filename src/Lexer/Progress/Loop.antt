-- ===== src/Lexer/Progress/Loop.antt =====
-- The loop of `tokenize` in lexer/tokenize.ts ends, and its tokens tile the input in order.
use sqlite_mem.Prelude.{
  ℕ, suc, Text, Bool, true, false, ◌&&◌, ◌||◌, [], ◌∷◌, ◌==◌, ◌≡◌, refl, inl, inr, if◌then◌else◌,
  length, arith, Option-cases,
}
use sqlite_mem.Errors.{ok}
use sqlite_mem.Lexer.Scan.{is_digit, is_word_start, single_quote, double_quote, back_quote}
use sqlite_mem.Lexer.State.{LexState, Step, block_comment, blob_literal}
use sqlite_mem.Lexer.{lex_rest, lex_step, is_space, next_is_digit, next_is, behind}
use sqlite_mem.Lexer.Operators.{operator}
use sqlite_mem.Lexer.Progress.{
  Reads, Advanced, white_space-Reads, line_comment-Reads, block_comment-Reads, string_literal-Reads,
  quoted_identifier-Reads, blob_literal-Reads,
}
use sqlite_mem.Lexer.Progress.Words.{
  positional_parameter-Reads, named_parameter-Reads, number_literal-Reads, operator_token-Reads,
  word-Reads,
}

-- `Reads`, as a record, so that its arguments are read off a goal.
record IsSound (n : ℕ) (st : LexState) (r : Step) : Type 0 where
  reads : Reads n st r

branch :
    {n : ℕ} {st : LexState} (b : Bool) (x y : Step)
    → (b ≡ true → Reads n st x)
    → (b ≡ false → IsSound n st y)
    → IsSound n st (if b then x else y)
branch true x y h k = record { reads = h refl }
branch false x y h k = k refl

lex_rest-Reads : (c : ℕ) (cs : Text) (st : LexState) → Reads (suc (length cs)) st (lex_rest c cs st)
unfolding lex_rest
lex_rest-Reads c cs st = elim (Option-cases (operator c cs)) [
  | inl e ↦
      rw (e, lex_rest)
        ((branch (is_word_start c) _ _ (λ h. word-Reads st c cs h)
          (λ h. record { reads = tt })).reads)
  | inr (o, e) ↦ rw (e, lex_rest) (operator_token-Reads st c cs o e)
]

block_comment-Reads-behind :
    (cs : Text) (st : LexState)
    → next_is b'*' cs ≡ true
    → Reads (suc (length cs)) st (block_comment (behind cs) st)
block_comment-Reads-behind [] st h = cc
block_comment-Reads-behind (d ∷ cs) st h = block_comment-Reads st cs

blob_literal-Reads-behind :
    (c d : ℕ) (cs : Text) (st : LexState)
    → next_is d cs ≡ true
    → Reads (suc (length cs)) st (blob_literal c (behind cs) st)
blob_literal-Reads-behind c d [] st h = cc
blob_literal-Reads-behind c d (x ∷ cs) st h = blob_literal-Reads st c cs

dash_no_newline : (c : ℕ) (b : Bool) → (c == b'-' && b) ≡ true → (c == 10) ≡ false
dash_no_newline c b h = ground arith

and_right : (a b : Bool) → (a && b) ≡ true → b ≡ true
and_right true b h = h
and_right false b h = cc

digit_or_dot :
    (c : ℕ) (b : Bool) → (is_digit c || c == b'.' && b) ≡ true → (is_digit c || c == b'.') ≡ true
digit_or_dot c b h = ground arith

lex_step-IsSound :
    (c : ℕ) (cs : Text) (st : LexState) → IsSound (suc (length cs)) st (lex_step c cs st)
unfolding lex_step
lex_step-IsSound c cs st =
    branch (is_space c) _ _ (λ _. white_space-Reads st c cs)
      λ _.
        branch (c == b'-' && next_is b'-' cs) _ _
          (λ h. line_comment-Reads st c cs (dash_no_newline c _ h))
          λ _.
            branch (c == b'/' && next_is b'*' cs) _ _
              (λ h. block_comment-Reads-behind cs st (and_right _ _ h))
              λ _.
                branch (c == single_quote) _ _ (λ _. string_literal-Reads st cs)
                  λ _.
                    branch (c == double_quote || c == b'[' || c == back_quote) _ _
                      (λ _. quoted_identifier-Reads st c cs)
                      λ _.
                        branch ((c == b'x' || c == b'X') && next_is single_quote cs) _ _
                          (λ h. blob_literal-Reads-behind c _ cs st (and_right _ _ h))
                          λ _.
                            branch (c == b'?') _ _ (λ _. positional_parameter-Reads st cs)
                              λ _.
                                branch (c == b':' || c == b'@' || c == b'$') _ _
                                  (λ _. named_parameter-Reads st c cs)
                                  λ _.
                                    branch (is_digit c || c == b'.' && next_is_digit cs) _ _
                                      (λ h. number_literal-Reads st c cs (digit_or_dot c _ h))
                                      λ _. record { reads = lex_rest-Reads c cs st }

-- One round of the loop, on every input and state.
pub lex_step-Advanced :
    (c : ℕ) (cs : Text) (st : LexState) (rest : Text) (st' : LexState)
    → lex_step c cs st ≡ ok (rest, st')
    → Advanced (suc (length cs)) st rest st'
lex_step-Advanced c cs st rest st' e = rw e at (lex_step-IsSound c cs st).reads
