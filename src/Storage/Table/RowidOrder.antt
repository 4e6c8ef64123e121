-- ===== src/Storage/Table/RowidOrder.antt =====
-- storage/table.ts: the order of rowids.
use sqlite_mem.Prelude.{zero, suc, arith, ◌≡◌, refl, true, false}
use sqlite_mem.Prelude.Int.{ℤ, pos, negsuc, eqb_ℤ}
use sqlite_mem.Storage.Table.Rowids.{is_above, is_at_least, increment_rowid}

pub is_above_not_both :
    (k m r : ℤ) → is_above k m ≡ false → is_above r m ≡ true → is_above k r ≡ false
is_above_not_both (pos k) (pos m) (pos r) e f = ground arith
is_above_not_both (pos k) (pos m) (negsuc r) e f = cc
is_above_not_both (pos k) (negsuc m) r e f = cc
is_above_not_both (negsuc k) m (pos r) e f = refl
is_above_not_both (negsuc k) (pos m) (negsuc r) e f = cc
is_above_not_both (negsuc k) (negsuc m) (negsuc r) e f = ground arith

pub is_above_irrefl : (k : ℤ) → is_above k k ≡ false
is_above_irrefl (pos k) = ground arith
is_above_irrefl (negsuc k) = ground arith

-- A rowid that is not above another is below the next of that one.
pub is_at_least-increment_rowid :
    (k m : ℤ) → is_above k m ≡ false → is_at_least k (increment_rowid m) ≡ false
is_at_least-increment_rowid (pos k) (pos m) e = ground arith
is_at_least-increment_rowid (pos k) (negsuc m) e = cc
is_at_least-increment_rowid (negsuc k) (pos m) e = refl
is_at_least-increment_rowid (negsuc k) (negsuc zero) e = refl
is_at_least-increment_rowid (negsuc k) (negsuc (suc m)) e = ground arith

pub not_above :
    (k n r : ℤ) → is_at_least k n ≡ false → is_at_least r n ≡ true → is_above k r ≡ false
not_above (pos k) (pos n) (pos r) e f = ground arith
not_above (pos k) (pos n) (negsuc r) e f = cc
not_above (pos k) (negsuc n) r e f = cc
not_above (negsuc k) n (pos r) e f = refl
not_above (negsuc k) (pos n) (negsuc r) e f = cc
not_above (negsuc k) (negsuc n) (negsuc r) e f = ground arith

pub below_differs : (k n : ℤ) → is_at_least k n ≡ false → eqb_ℤ k n ≡ false
below_differs (pos k) (pos n) e = ground arith
below_differs (pos k) (negsuc n) e = refl
below_differs (negsuc k) (pos n) e = refl
below_differs (negsuc k) (negsuc n) e = ground arith

pub is_above_chain :
    (k m r : ℤ) → is_above k m ≡ false → is_above m r ≡ false → is_above k r ≡ false
is_above_chain (pos k) (pos m) (pos r) e f = ground arith
is_above_chain (pos k) (pos m) (negsuc r) e f = cc
is_above_chain (pos k) (negsuc m) r e f = cc
is_above_chain (negsuc k) m (pos r) e f = refl
is_above_chain (negsuc k) (pos m) (negsuc r) e f = cc
is_above_chain (negsuc k) (negsuc m) (negsuc r) e f = ground arith

pub above_first :
    (j m top : ℤ) → is_above j m ≡ true → is_above j top ≡ false → is_above m top ≡ false
above_first (pos j) (pos m) (pos r) e f = ground arith
above_first (pos j) m (negsuc r) e f = cc
above_first (pos j) (negsuc m) (pos r) e f = refl
above_first (negsuc j) (pos m) r e f = cc
above_first (negsuc j) (negsuc m) (pos r) e f = refl
above_first (negsuc j) (negsuc m) (negsuc r) e f = ground arith

pub below_irrefl : (k : ℤ) → is_at_least k k ≡ true
below_irrefl (pos k) = ground arith
below_irrefl (negsuc k) = ground arith
