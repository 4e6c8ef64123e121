-- ===== src/Lexer/Scan.antt =====
-- lexer/tokenize.ts: positions, `peek`, `advance`, and the inner scanning loops of `tokenize`.
-- The input that is left is an argument of its own, so a loop is a recursion on it.
use sqlite_mem.Prelude.{
  ℕ, ◌+◌, Text, Bool, ◌&&◌, ◌||◌, Option, none, some, [], ◌∷◌, ◌==◌, if◌then◌else◌, between,
}

-- `i`, `line` and `column`.
pub record Pos : Type 0 where
  pub i : ℕ
  pub line : ℕ
  pub column : ℕ

-- `advance` over the character `ch`.
unfoldable pub advance : ℕ → Pos → Pos
advance ch p =
    if ch == 10
    then record { i = p.i + 1; line = p.line + 1; column = 1 }
    else record { i = p.i + 1; line = p.line; column = p.column + 1 }

-- What a scanning loop returns: the text that it gathered, the input left, and the position.
pub record Scanned : Type 0 where
  pub taken : Text
  pub rest : Text
  pub pos : Pos

abbrev pub scanned : Text → Text → Pos → Scanned
scanned t r p = record { taken = t; rest = r; pos = p }

-- `s += ch` in front of what the rest of the loop gathers.
abbrev pub gather : ℕ → Scanned → Scanned
gather ch s = record s { taken = ch ∷ s.taken }

-- The character classes of the source's regular expressions.
abbrev pub is_digit : ℕ → Bool
is_digit c = between b'0' b'9' c

abbrev pub is_letter : ℕ → Bool
is_letter c = between b'A' b'Z' c || between b'a' b'z' c

abbrev pub is_hex : ℕ → Bool
is_hex c = is_digit c || between b'a' b'f' c || between b'A' b'F' c

-- [A-Za-z0-9_]
abbrev pub is_name_char : ℕ → Bool
is_name_char c = is_letter c || is_digit c || c == b'_'

-- [A-Za-z0-9_$]
abbrev pub is_word_char : ℕ → Bool
is_word_char c = is_name_char c || c == b'$'

-- [A-Za-z_]
abbrev pub is_word_start : ℕ → Bool
is_word_start c = is_letter c || c == b'_'

-- `while (/[…]/.test(peek())) s += advance()`
unfoldable pub take_while : (ℕ → Bool) → Text → Pos → Scanned
unfolding advance
take_while p [] pos = scanned [] [] pos
take_while p (c ∷ cs) pos =
    if p c then gather c (take_while p cs (advance c pos)) else scanned [] (c ∷ cs) pos

-- The quotes, as code units.
abbrev pub single_quote : ℕ
single_quote = 39

abbrev pub double_quote : ℕ
double_quote = 34

abbrev pub back_quote : ℕ
back_quote = 96

-- The body of a block comment, after its opening: `none` where the input ends first.
unfoldable pub comment_body : Text → Pos → Option Scanned
unfolding advance
comment_body [] pos = none
comment_body (c ∷ []) pos = none
comment_body (c ∷ d ∷ cs) pos =
    let more = comment_body (d ∷ cs) (advance c pos) in
    if c == b'*' && d == b'/' then some (scanned [] cs (advance d (advance c pos))) else more

abbrev pub gather? : ℕ → Option Scanned → Option Scanned
gather? ch none = none
gather? ch (some s) = some (gather ch s)

-- The loop that reads a string literal or a quoted identifier up to `closer`, after its opening
-- quote; `doubles` says that two closers in a row stand for one. `none`: the input ends first.
unfoldable pub quoted_body : Bool → ℕ → Text → Pos → Option Scanned
unfolding advance
quoted_body doubles closer [] pos = none
quoted_body doubles closer (c ∷ []) pos =
    if c == closer then some (scanned [] [] (advance c pos)) else none
quoted_body doubles closer (c ∷ d ∷ cs) pos =
    let past = advance c pos in
    let doubled = gather? closer (quoted_body doubles closer cs (advance d past)) in
    let longer = gather? c (quoted_body doubles closer (d ∷ cs) past) in
    if c == closer
    then (if doubles && d == closer then doubled else some (scanned [] (d ∷ cs) past))
    else longer

-- The loop of a blob literal, after `X'`: it stops behind a quote or at the end of the input;
-- `none` where a character is no hexadecimal digit.
unfoldable pub hex_body : Text → Pos → Option Scanned
unfolding advance
hex_body [] pos = some (scanned [] [] pos)
hex_body (c ∷ cs) pos =
    let more = gather? c (hex_body cs (advance c pos)) in
    if c == single_quote
    then some (scanned [] cs (advance c pos))
    else if is_hex c
    then more
    else none
