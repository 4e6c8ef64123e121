-- ===== src/Lexer/Words.antt =====
-- lexer/tokenize.ts: parameters, numbers, operators and words, one handler each.
use sqlite_mem.Prelude.{
  ℕ, zero, suc, ◌/◌, ◌%◌, ◌^◌, ◌+◌, ◌*◌, ◌-◌, Text, text_eq, to_lower, Bool, true, false, ◌||◌,
  Option, none, some, List, [], ◌∷◌, ◌++◌, ◌==◌, leb, ltb, max, if◌then◌else◌, length,
}
use sqlite_mem.Errors.{ok}
use sqlite_mem.Lexer.Tokens.{Literal, number, param_pos, param_named, absent, exact, bigint, atof}
use sqlite_mem.Lexer.Scan.{
  Pos, Scanned, scanned, gather, advance, is_digit, is_name_char, take_while,
}
use sqlite_mem.Lexer.State.{LexState, Step, push, throw_syntax}

-- A natural number as a JavaScript number holds it: its first 53 bits, rounded to the nearest, and in
-- the middle to the even one. (Beyond the largest double, from about 10^308, it would be Infinity.)
abbrev halfway_up : ℕ → ℕ → ℕ
halfway_up n unit =
    let rest = n % unit in
    if ltb (rest * 2) unit
    then n / unit
    else if ltb unit (rest * 2)
    then n / unit + 1
    else n / unit + n / unit % 2

-- The unit doubles until fewer than 2^53 of them make up the number; a double is below 2^1024.
unfoldable unit_of : ℕ → ℕ → ℕ → ℕ
unit_of zero n unit = unit
unit_of (suc fuel) n unit = elim (ltb (n / unit) (2 ^ 53)) [
  | true ↦ unit
  | false ↦ unit_of fuel n (unit * 2)
]

unfoldable pub rounded : ℕ → ℕ
unfolding unit_of
rounded n = let unit = unit_of 1024 n 1 in halfway_up n unit * unit

digits_from : ℕ → Text → ℕ
digits_from n [] = n
digits_from n (c ∷ cs) = digits_from (n * 10 + (c - 48)) cs

unfoldable pub decimal : Text → ℕ
unfolding digits_from
decimal s = digits_from 0 s

-- `?` and `?NNN`, whose index is `Number` of the digits, with `cs` behind the question mark.
unfoldable pub positional_parameter : Text → LexState → Step
unfolding take_while advance decimal rounded
positional_parameter cs st =
    let s = take_while is_digit cs (advance b'?' st.pos) in
    let index =
      if length s.taken == 0 then st.next_parameter_index else rounded (decimal s.taken) in
    ok (
      s.rest,
      push param_pos (b'?' ∷ s.taken) absent false (some index) st.pos s.pos
          (record st { next_parameter_index = max st.next_parameter_index (rounded (index + 1)) }),
    )

-- `namedParameterIndexes.has(name)`
unfoldable pub is_named : Text → List (Text × ℕ) → Bool
is_named name [] = false
is_named name ((n, i) ∷ m) = text_eq n name || is_named name m

-- The parameter gets the next index where its lower-case name is new.
unfoldable pub remember_name : Text → LexState → LexState
unfolding is_named text_eq rounded
remember_name name st = if is_named name st.named_parameter_indexes then st else record st {
  named_parameter_indexes = st.named_parameter_indexes ++ (name, st.next_parameter_index) ∷ [];
  next_parameter_index = rounded (st.next_parameter_index + 1);
}

-- `:name`, `@name` and `$name`, with `cs` behind the prefix.
unfoldable pub named_parameter : ℕ → Text → LexState → Step
unfolding take_while advance remember_name
named_parameter prefix cs st =
    let s = take_while is_name_char cs (advance prefix st.pos) in
    let parameter = prefix ∷ s.taken in
    if length s.taken == 0
    then throw_syntax "unrecognized token near parameter"
    else ok (
      s.rest,
      push param_named parameter absent false none st.pos s.pos
          (remember_name (to_lower parameter) st),
    )

-- A part of a number: the text read so far and what is left, and whether it is a float.
pub record Numeral : Type 0 where
  pub is_float : Bool
  pub read : Scanned

-- The whole digits are read: a point and the digits behind it.
unfoldable pub fraction : Text → Text → Pos → Numeral
unfolding take_while advance
fraction whole [] pos = record { is_float = false; read = scanned whole [] pos }
fraction whole (c ∷ cs) pos =
    let f = take_while is_digit cs (advance c pos) in
    if c == b'.'
    then record { is_float = true; read = scanned (whole ++ c ∷ f.taken) f.rest f.pos }
    else record { is_float = false; read = scanned whole (c ∷ cs) pos }

-- The number's digits and point, from its first character `c` on.
unfoldable pub mantissa : ℕ → Text → Pos → Numeral
unfolding take_while advance fraction
mantissa c cs pos =
    let tail = take_while is_digit cs (advance c pos) in
    let whole = take_while is_digit (c ∷ cs) pos in
    if c == b'.'
    then record { is_float = true; read = gather c tail }
    else fraction whole.taken whole.rest whole.pos

-- The digits of an exponent, of which there must be one; `none` is the source's throw.
unfoldable pub exponent_digits : Text → Text → Pos → Option Scanned
unfolding take_while
exponent_digits taken input pos =
    let s = take_while is_digit input pos in
    if length s.taken == 0 then none else some (scanned (taken ++ s.taken) s.rest s.pos)

-- An exponent's sign, behind its `e`.
unfoldable pub exponent_sign : Text → Text → Pos → Option Scanned
unfolding exponent_digits advance
exponent_sign taken [] pos = none
exponent_sign taken (c ∷ cs) pos =
    if c == b'+' || c == b'-'
    then exponent_digits (taken ++ c ∷ []) cs (advance c pos)
    else exponent_digits taken (c ∷ cs) pos

-- The exponent, if there is one, behind the mantissa `taken`.
unfoldable pub exponent : Bool → Text → Text → Pos → Option Numeral
unfolding exponent_sign advance
exponent float taken [] pos = some (record { is_float = float; read = scanned taken [] pos })
exponent float taken (c ∷ cs) pos =
    if c == b'e' || c == b'E'
    then elim (exponent_sign (taken ++ c ∷ []) cs (advance c pos)) [
      | none ↦ none
      | some s ↦ some (record { is_float = true; read = s })
    ]
    else some (record { is_float = float; read = scanned taken (c ∷ cs) pos })

-- 2^53 - 1
abbrev pub max_safe_integer : ℕ
max_safe_integer = 9007199254740991

-- The literal of a number token. `sqliteAtoF` gives a float its value.
unfoldable pub number_value : Bool → Text → Literal
unfolding decimal
number_value float raw =
    if float
    then atof raw
    else if ltb 15 (length raw)
    then bigint (decimal raw)
    else if leb (decimal raw) max_safe_integer
    then exact (decimal raw)
    else bigint (decimal raw)

after_number : Option Numeral → LexState → Step
after_number none st = throw_syntax "unrecognized token near number"
after_number (some n) st = ok (
  n.read.rest,
  push number n.read.taken (number_value n.is_float n.read.taken) n.is_float none st.pos n.read.pos
      st,
)

-- Numbers, from their first character on.
unfoldable pub number_literal : ℕ → Text → LexState → Step
unfolding after_number number_value exponent mantissa
number_literal c cs st =
    let m = mantissa c cs st.pos in
    after_number (exponent m.is_float m.read.taken m.read.rest m.read.pos) st
