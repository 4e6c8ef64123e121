-- ===== src/Types/Comparison/Units.antt =====
-- The order of code units and of bytes is total.
use Prim.Native.Nat.{Ordering}
use sqlite_mem.Prelude.{ℕ, List, [], ◌∷◌, ◌≡◌, ◌≢◌, refl, arith}
use sqlite_mem.Prelude.Int.{ℤ, pos, negsuc}
use sqlite_mem.Types.Comparison.{compare_ℤ, compare_units}

-- The comparison the other way round.
abbrev pub flip : Ordering → Ordering
flip Ordering.lt = Ordering.gt
flip Ordering.eq = Ordering.eq
flip Ordering.gt = Ordering.lt

pub compare_ℤ-flip : (a b : ℤ) → compare_ℤ b a ≡ flip (compare_ℤ a b)
compare_ℤ-flip (pos a) (pos b) = ground arith
compare_ℤ-flip (pos a) (negsuc b) = refl
compare_ℤ-flip (negsuc a) (pos b) = refl
compare_ℤ-flip (negsuc a) (negsuc b) = ground arith

pub compare_ℤ_trans :
    (a b c : ℤ)
    → compare_ℤ a b ≡ Ordering.lt
    → compare_ℤ b c ≡ Ordering.lt
    → compare_ℤ a c ≡ Ordering.lt
compare_ℤ_trans (pos a) (pos b) (pos c) e f = ground arith
compare_ℤ_trans (pos a) (pos b) (negsuc c) e f = cc
compare_ℤ_trans (pos a) (negsuc b) c e f = cc
compare_ℤ_trans (negsuc a) (pos b) (pos c) e f = refl
compare_ℤ_trans (negsuc a) (pos b) (negsuc c) e f = cc
compare_ℤ_trans (negsuc a) (negsuc b) (pos c) e f = refl
compare_ℤ_trans (negsuc a) (negsuc b) (negsuc c) e f = ground arith

pub compare_units-flip : (s t : List ℕ) → compare_units t s ≡ flip (compare_units s t)
unfolding compare_units
compare_units-flip [] [] = refl
compare_units-flip [] (y ∷ ys) = refl
compare_units-flip (x ∷ xs) [] = refl
compare_units-flip (x ∷ xs) (y ∷ ys) = ground (arith, compare_units-flip xs ys)

pub compare_units_trans :
    (s t u : List ℕ)
    → compare_units s t ≡ Ordering.lt
    → compare_units t u ≡ Ordering.lt
    → compare_units s u ≡ Ordering.lt
unfolding compare_units
compare_units_trans [] [] u e f = cc
compare_units_trans [] (y ∷ ys) [] e f = cc
compare_units_trans [] (y ∷ ys) (z ∷ zs) e f = refl
compare_units_trans (x ∷ xs) [] u e f = cc
compare_units_trans (x ∷ xs) (y ∷ ys) [] e f = cc
compare_units_trans (x ∷ xs) (y ∷ ys) (z ∷ zs) e f = ground (arith, compare_units_trans xs ys zs)

-- What is below a third and not below another, has the other below the third.
pub compare_units_split :
    (s t u : List ℕ)
    → compare_units s u ≡ Ordering.lt
    → compare_units s t ≢ Ordering.lt
    → compare_units t u ≡ Ordering.lt
unfolding compare_units
compare_units_split [] [] u e h = e
compare_units_split [] (y ∷ ys) u e h = absurd (h refl)
compare_units_split (x ∷ xs) t [] e h = cc
compare_units_split (x ∷ xs) [] (z ∷ zs) e h = refl
compare_units_split (x ∷ xs) (y ∷ ys) (z ∷ zs) e h = ground (arith, compare_units_split xs ys zs)
