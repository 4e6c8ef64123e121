-- ===== src/Lexer/Covers.antt =====
-- The scanning loops of lexer/tokenize.ts read on: what is left is shorter by what the index counts.
use sqlite_mem.Prelude.{
  ℕ, ◌+◌, ◌≤◌, Text, Bool, true, Option, none, some, [], ◌∷◌, ◌≡◌, refl, length, arith,
}
use sqlite_mem.Lexer.Scan.{
  Pos, Scanned, advance, take_while, comment_body, quoted_body, hex_body, gather?,
}

-- A scan reads from the front: what was read is no longer left, and the index counts it.
pub record Covers (n : ℕ) (p : Pos) (s : Scanned) : Type 0 where
  pub shorter : length s.rest ≤ n
  pub counted : s.pos.i + length s.rest ≡ p.i + n

pub i-advance : (c : ℕ) (p : Pos) → (advance c p).i ≡ p.i + 1
unfolding advance
i-advance c p = ground arith

pub take_while-Covers : (f : ℕ → Bool) (s : Text) (p : Pos) → Covers (length s) p (take_while f s p)
unfolding take_while
take_while-Covers f [] p = omega arith
take_while-Covers f (c ∷ cs) p = ground (arith, take_while-Covers f cs (advance c p), i-advance c p)

pub comment_body-Covers :
    (s : Text) (p : Pos) (r : Scanned) → comment_body s p ≡ some r → Covers (length s) p r
unfolding comment_body
comment_body-Covers [] p r e = cc
comment_body-Covers (c ∷ []) p r e = cc
comment_body-Covers (c ∷ d ∷ cs) p r e =
    ground (
      arith,
      comment_body-Covers (d ∷ cs) (advance c p) r,
      i-advance c p,
      i-advance d (advance c p),
    )

-- `gather?` keeps the input left and the position.
gather?-Covers :
    (n c : ℕ) (p : Pos) (o : Option Scanned) (r : Scanned)
    → ((q : Scanned) → o ≡ some q → Covers n p q)
    → gather? c o ≡ some r
    → Covers n p r
gather?-Covers n c p none r h e = cc
gather?-Covers n c p (some q) r h e = ground (arith, h q refl)

pub hex_body-Covers :
    (s : Text) (p : Pos) (r : Scanned) → hex_body s p ≡ some r → Covers (length s) p r
unfolding hex_body
hex_body-Covers [] p r e = ground arith
hex_body-Covers (c ∷ cs) p r e = ground (
  arith,
  gather?-Covers (length cs) c (advance c p) (hex_body cs (advance c p)) r
      (λ q. hex_body-Covers cs (advance c p) q),
  i-advance c p,
)

pub quoted_body-Covers :
    (b : Bool) (k : ℕ) (s : Text) (p : Pos) (r : Scanned)
    → quoted_body b k s p ≡ some r
    → Covers (length s) p r
unfolding quoted_body
quoted_body-Covers b k [] p r e = cc
quoted_body-Covers b k (c ∷ []) p r e = ground (arith, i-advance c p)
quoted_body-Covers b k (c ∷ d ∷ cs) p r e =
    let past = advance c p in
    ground (
      arith,
      i-advance c p,
      i-advance d past,
      gather?-Covers (length cs) k (advance d past) (quoted_body b k cs (advance d past)) r
          (λ q. quoted_body-Covers b k cs (advance d past) q),
      gather?-Covers (length (d ∷ cs)) c past (quoted_body b k (d ∷ cs) past) r
          (λ q. quoted_body-Covers b k (d ∷ cs) past q),
    )

-- A first character of the class is read.
pub take_while-shorter :
    (f : ℕ → Bool) (c : ℕ) (cs : Text) (p : Pos)
    → f c ≡ true
    → length (take_while f (c ∷ cs) p).rest ≤ length cs
unfolding take_while
take_while-shorter f c cs p h = ground (arith, take_while-Covers f cs (advance c p))
