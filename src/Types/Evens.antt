-- ===== src/Types/Evens.antt =====
-- Doubles for examples: those that hold the even naturals, so that Number(z) rounds an odd BigInt down,
-- and one for all negative numbers.
use Prim.Native.Nat.{Ordering}
use sqlite_mem.Prelude.{
  ℕ, ◌+◌, ◌*◌, ◌/◌, Bool, true, false, not, ◌&&◌, Option, none, some, [], ltb, ◌≡◌, refl, arith,
}
use sqlite_mem.Prelude.Int.{ℤ, pos, negsuc}
use sqlite_mem.Types.Value.{Real, nan, plus_infinity, minus_infinity, minus_zero, finite}
use sqlite_mem.Types.Comparison.{is_nan, compare_ℤ}
use sqlite_mem.Types.Comparison.Laws.{IsOrdered}
use sqlite_mem.Types.Conversion.{Numbers, canonical}
use sqlite_mem.Types.Conversion.Laws.{IsExact}

abbrev rank : Real ℕ → ℕ
rank nan = 0
rank minus_infinity = 0
rank minus_zero = 1
rank (finite n) = n + 1
rank plus_infinity = 1_000_000

abbrev less : Real ℕ → Real ℕ → Bool
less a b = not (is_nan a) && not (is_nan b) && ltb (rank a) (rank b)

-- `finite n` holds 2 * n.
abbrev of_integer : ℤ → Real ℕ
of_integer (pos n) = finite (n / 2)
of_integer (negsuc n) = minus_infinity

abbrev integral : Real ℕ → Option ℤ
integral (finite n) = some (pos (n * 2))
integral minus_zero = some (pos 0)
integral _ = none

abbrev pub evens : Numbers ℕ
evens = record {
  doubles = record { less = less; of_integer = of_integer };
  integral = integral;
  parse = λ s. nan;
  show = λ r. [];
  format_real = λ r. [];
  utf8_decode = λ b. b;
}

less_trans : (a b c : Real ℕ) → less a b ≡ true → less b c ≡ true → less a c ≡ true
less_trans a b c e f = ground arith

less_split :
    (a b c : Real ℕ) → less a c ≡ true → is_nan b ≡ false → less a b ≡ false → less b c ≡ true
less_split a b c e f g = ground arith

less_above : (a : Real ℕ) → less a nan ≡ false
less_above a = ground arith

rounded_order : (a b : ℤ) → less (of_integer a) (of_integer b) ≡ true → compare_ℤ a b ≡ Ordering.lt
rounded_order (pos a) (pos b) e = ground arith
rounded_order (pos a) (negsuc b) e = ground arith
rounded_order (negsuc a) (pos b) e = refl
rounded_order (negsuc a) (negsuc b) e = cc

of_integer_is_number : (z : ℤ) → is_nan (of_integer z) ≡ false
of_integer_is_number (pos n) = refl
of_integer_is_number (negsuc n) = refl

pub evens-IsOrdered : IsOrdered evens.doubles
evens-IsOrdered = record {
  irreflexive = λ a. ground arith;
  transitive = less_trans;
  split = less_split;
  nan_below = λ a. refl;
  nan_above = less_above;
  of_integer_number = of_integer_is_number;
  of_integer_mono = rounded_order;
}

even_value : (n : Real ℕ) (z : ℤ) → integral n ≡ some z → of_integer z ≡ canonical evens n
even_value nan z e = cc
even_value plus_infinity z e = cc
even_value minus_infinity z e = cc
even_value minus_zero (pos m) e = ground (arith, e)
even_value minus_zero (negsuc m) e = cc
even_value (finite n) (pos m) e = ground (arith, e)
even_value (finite n) (negsuc m) e = cc

canonical_integral : (n : Real ℕ) → integral (canonical evens n) ≡ integral n
canonical_integral nan = refl
canonical_integral plus_infinity = refl
canonical_integral minus_infinity = refl
canonical_integral minus_zero = refl
canonical_integral (finite n) = refl

canonical_of_integer : (z : ℤ) → canonical evens (of_integer z) ≡ of_integer z
canonical_of_integer (pos n) = refl
canonical_of_integer (negsuc n) = refl

pub evens-IsExact : IsExact evens
evens-IsExact = record {
  same_value = even_value;
  integral_canonical = canonical_integral;
  canonical_integer = canonical_of_integer;
}
