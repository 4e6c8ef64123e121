-- ===== src/Lexer/Spans.antt =====
-- `tokenize` of lexer/tokenize.ts ends on every input, and its tokens tile the input in order.
use sqlite_mem.Prelude.{
  ℕ, zero, suc, ◌+◌, ◌≤◌, ◌<◌, Text, Option, none, some, List, [], ◌∷◌, ◌++◌, ◌≡◌, refl, inl, inr,
  length, arith,
}
use sqlite_mem.Errors.{Result, ok, err, Result-cases}
use sqlite_mem.Lexer.Tokens.{Token}
use sqlite_mem.Lexer.Scan.{Pos}
use sqlite_mem.Lexer.State.{LexState}
use sqlite_mem.Lexer.{lex_step, lex_loop, eof_token, tokenize, initial}
use sqlite_mem.Lexer.Progress.{Advanced}
use sqlite_mem.Lexer.Progress.Loop.{lex_step-Advanced}

-- The tokens lie between `lo` and `hi`, each not empty, none overlapping the next.
abbrev pub Spans : ℕ → List Token → ℕ → Type 0
Spans lo [] hi = lo ≤ hi
Spans lo (t ∷ ts) hi = (lo ≤ t.start) × (t.start < t.end) × Spans t.end ts hi

Spans-le : (lo : ℕ) (ts : List Token) {m n : ℕ} → Spans lo ts m → m ≤ n → Spans lo ts n
Spans-le lo [] h k = omega arith
Spans-le lo (t ∷ ts) (a, b, c) k = (a, b, Spans-le t.end ts c k)

Spans-append :
    (lo : ℕ) (ts : List Token) (t : Token) {m : ℕ}
    → Spans lo ts m
    → m ≤ t.start
    → t.start < t.end
    → Spans lo (ts ++ t ∷ []) t.end
Spans-append lo [] t h k l = omega arith
Spans-append lo (x ∷ xs) t (a, b, c) k l = (a, b, Spans-append x.end xs t c k l)

-- A round that pushes nothing, or a token over what it read, keeps the tokens in order.
round-Spans :
    (n : ℕ) (st st' : LexState) (rest : Text)
    → Advanced n st rest st'
    → Spans 0 st.tokens st.pos.i
    → Spans 0 st'.tokens st'.pos.i
round-Spans n st st' rest v h = elim v.extends [
  | inl same ↦ rw same (Spans-le 0 st.tokens h (omega (arith, v.counted, v.shorter)))
  | inr (t, pushed, from, to) ↦
      rw (pushed, ← to)
        (Spans-append 0 st.tokens t h (omega arith) (omega (arith, v.counted, v.shorter)))
]

-- What the loop returns on an input of `n` characters in all: never the end of its fuel.
abbrev Outcome : ℕ → Option (Result (List Token)) → Type 0
Outcome n none = ⊥
Outcome n (some (err e)) = Unit
Outcome n (some (ok ts)) =
    (body : List Token) × (p : Pos) × (ts ≡ body ++ eof_token p ∷ []) × Spans 0 body n × (p.i ≡ n)

lex_loop-Outcome :
    (fuel n : ℕ) (input : Text) (st : LexState)
    → length input ≤ fuel
    → st.pos.i + length input ≡ n
    → Spans 0 st.tokens st.pos.i
    → Outcome n (lex_loop fuel input st)
unfolding lex_loop
lex_loop-Outcome fuel n [] st f c h =
    (st.tokens, st.pos, refl, Spans-le 0 st.tokens h (omega arith), omega arith)
lex_loop-Outcome zero n (c ∷ cs) st f e h = absurd (omega arith)
lex_loop-Outcome (suc fuel) n (c ∷ cs) st f e h = elim (Result-cases (lex_step c cs st)) [
  | inl ((rest, st'), q) ↦
      let v = lex_step-Advanced c cs st rest st' q in
      rw (q, lex_loop)
        (lex_loop-Outcome fuel n rest st' (omega arith) (omega arith)
          (round-Spans _ st st' rest v h))
  | inr (x, q) ↦ rw (q, lex_loop) tt
]

tokenize-Outcome : (input : Text) → Outcome (length input) (tokenize input)
unfolding tokenize
tokenize-Outcome input =
    lex_loop-Outcome (length input) (length input) input initial (omega arith) (omega arith)
      (omega arith)

-- `tokenize` ends on every input: the rounds that it is given are enough, and it returns its tokens
-- or throws.
pub tokenize_total : (input : Text) → (r : Result (List Token)) × (tokenize input ≡ some r)
tokenize_total input = go (tokenize input) refl
  where
    go :
        (o : Option (Result (List Token)))
        → tokenize input ≡ o
        → (r : Result (List Token)) × (tokenize input ≡ some r)
    go none e = absurd (rw e at (tokenize-Outcome input))
    go (some r) e = (r, e)

-- The tokens of a lexed input are an end token at the input's end, and before it tokens that are not
-- empty, lie within the input, and follow one another without overlapping.
pub tokenize-Spans :
    (input : Text) (ts : List Token)
    → tokenize input ≡ some (ok ts)
    → (body : List Token) × (p : Pos) × (ts ≡ body ++ eof_token p ∷ [])
      × Spans 0 body (length input)
      × (p.i ≡ length input)
tokenize-Spans input ts e = rw e at (tokenize-Outcome input)
