-- ===== src/Storage/Table/RowMaps.antt =====
-- storage/table.ts: how the map of the rows answers after a change, and the order of rowids.
use sqlite_mem.Prelude.{arith, ◌≡◌, ◌≢◌, refl, ap, true, false, Option, none, some, [], ◌∷◌, ==_iff}
use sqlite_mem.Prelude.Int.{ℤ, pos, negsuc, eqb_ℤ, eqb_ℤ_refl}
use sqlite_mem.Storage.Table.{Row, Rows, row_at, set_row, delete_row, is_some}

pub eqb_ℤ→eq : (a b : ℤ) → eqb_ℤ a b ≡ true → a ≡ b
eqb_ℤ→eq (pos a) (pos b) e = ap pos ((==_iff a b).0 e)
eqb_ℤ→eq (negsuc a) (negsuc b) e = ap negsuc ((==_iff a b).0 e)
eqb_ℤ→eq (pos a) (negsuc b) e = cc
eqb_ℤ→eq (negsuc a) (pos b) e = cc

pub eqb_ℤ_sym : (a b : ℤ) → eqb_ℤ a b ≡ false → eqb_ℤ b a ≡ false
eqb_ℤ_sym (pos a) (pos b) e = ground arith
eqb_ℤ_sym (negsuc a) (negsuc b) e = ground arith
eqb_ℤ_sym (pos a) (negsuc b) e = refl
eqb_ℤ_sym (negsuc a) (pos b) e = refl

pub some-injective : {A : Type 0} (a b : A) → some a ≡ some b → a ≡ b
some-injective a b e = cc

pub true_not_false : true ≢ false
true_not_false e = cc

pub some_not_none : {A : Type 0} (a : A) → ¬ (some a ≡ none)
some_not_none a e = cc

pub is_some-none : {A : Type 0} (o : Option A) → is_some o ≡ false → o ≡ none
is_some-none none e = refl
is_some-none (some a) e = cc

module _ {R : Type 0} where
  pub row_at-set_row :
      (k : ℤ) (row : Row R) (rows : Rows R) → row_at k (set_row k row rows) ≡ some row
  unfolding row_at set_row
  row_at-set_row k row [] = grind (arith, eqb_ℤ_refl k)
  row_at-set_row k row ((j, old) ∷ rows) = ground (arith, row_at-set_row k row rows, eqb_ℤ_refl k)

  pub row_at-set_row_other :
      (i k : ℤ) (row : Row R) (rows : Rows R)
      → eqb_ℤ k i ≡ false
      → row_at i (set_row k row rows) ≡ row_at i rows
  unfolding row_at set_row
  row_at-set_row_other i k row [] e = ground arith
  row_at-set_row_other i k row ((j, old) ∷ rows) e =
      ground (arith, row_at-set_row_other i k row rows e, eqb_ℤ→eq j k)

  pub row_at-delete_row_other :
      (i k : ℤ) (rows : Rows R) → eqb_ℤ k i ≡ false → row_at i (delete_row k rows) ≡ row_at i rows
  unfolding row_at delete_row
  row_at-delete_row_other i k [] e = refl
  row_at-delete_row_other i k ((j, old) ∷ rows) e =
      ground (arith, row_at-delete_row_other i k rows e, eqb_ℤ→eq j k)
