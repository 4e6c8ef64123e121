-- ===== src/Prelude/Texts.antt =====
-- Texts: a JavaScript string is the list of its UTF-16 code units.
use Prim.Native.Nat.{ℕ, ◌+◌, ◌-◌}
use Prim.Native.Char.{code}
use Prim.Native.String.{String}
use mathlib.Core.Bool.{Bool, ◌&&◌}
use mathlib.Core.List.{List, [], ◌∷◌, map}
use sqlite_mem.Prelude.Tests.{leb, if◌then◌else◌}

abbrev pub Text : Type 0
Text = List ℕ

-- The code units of a literal (all literals of the program are ASCII where this is used).
abbrev pub codes : String → Text
codes String.[] = []
codes (String.◌∷◌ c s) = code c ∷ codes s

abbrev pub between : ℕ → ℕ → ℕ → Bool
between lo hi c = leb lo c && leb c hi

-- ASCII case mapping of one code unit.
abbrev pub upper_unit : ℕ → ℕ
upper_unit c = if between b'a' b'z' c then c - 32 else c

abbrev pub lower_unit : ℕ → ℕ
lower_unit c = if between b'A' b'Z' c then c + 32 else c

-- `toUpperCase`, on ASCII text.
abbrev pub to_upper : Text → Text
to_upper = map upper_unit

-- ASCII letters made lower-case.
abbrev pub ascii_lower : Text → Text
ascii_lower = map lower_unit
