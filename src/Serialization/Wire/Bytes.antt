-- ===== src/Serialization/Wire/Bytes.antt =====
-- Reading back the integers and the byte runs that were written.
use native.Mathlib.Nat.{pow-suc}
use mathlib.Core.Path.{subst}
use sqlite_mem.Prelude.{
  ℕ, zero, suc, ◌+◌, ◌*◌, ◌/◌, ◌%◌, ◌^◌, ◌<◌, true, List, [], ◌∷◌, ◌++◌, ◌≡◌, refl, ap, length,
  take, drop, leb, arith, length-append,
}
use sqlite_mem.Prelude.Int.{ℤ, pos, negsuc}
use sqlite_mem.Runtime.Prng.{as_u64, as_i64}
use sqlite_mem.Serialization.Wire.{
  little_endian, from_little_endian, write_u32, write_u64, Reader, got, read_raw, read_u32,
  read_u64, read_i64,
}

abbrev pub reader_at : ℕ → List ℕ → Reader
reader_at o bs = record { offset = o; rest = bs }

pub length-little_endian : (n v : ℕ) → length (little_endian n v) ≡ n
unfolding little_endian
length-little_endian zero v = refl
length-little_endian (suc n) v = ap suc (length-little_endian n (v / 256))

take-append : (xs ys : List ℕ) → take (length xs) (xs ++ ys) ≡ xs
take-append [] ys = refl
take-append (x ∷ xs) ys = ap (λ t. x ∷ t) (take-append xs ys)

drop-append : (xs ys : List ℕ) → drop (length xs) (xs ++ ys) ≡ ys
drop-append [] ys = refl
drop-append (x ∷ xs) ys = drop-append xs ys

-- A run of bytes is read back, and what follows it is left.
pub read_raw-append :
    (xs ys : List ℕ) (o : ℕ)
    → read_raw (length xs) (reader_at o (xs ++ ys)) ≡ got xs (reader_at (o + length xs) ys)
unfolding read_raw
read_raw-append xs ys o =
    let fits : leb (length xs) (length (xs ++ ys)) ≡ true =
      rw (length-append xs ys) (ground arith) in
    rw (fits, take-append xs ys, drop-append xs ys) refl

below_quotient : (p v : ℕ) → v < p * 256 → v / 256 < p
below_quotient p v l = omega (arith, l)

from-little_endian : (n v : ℕ) → v < 256 ^ n → from_little_endian (little_endian n v) ≡ v
unfolding from_little_endian little_endian
from-little_endian zero v l = omega (arith, l)
from-little_endian (suc n) v l = omega (
  arith,
  from-little_endian n (v / 256)
      (below_quotient (256 ^ n) v (subst (λ b. v < b) (pow-suc 256 n) l)),
)

-- A run of bytes of a known length is read back, and what follows it is left.
pub read_raw_of_length :
    (n : ℕ) (xs ys : List ℕ) (o : ℕ)
    → length xs ≡ n
    → read_raw n (reader_at o (xs ++ ys)) ≡ got xs (reader_at (o + n) ys)
read_raw_of_length n xs ys o e =
    subst (λ k. read_raw k (reader_at o (xs ++ ys)) ≡ got xs (reader_at (o + k) ys)) e
      (read_raw-append xs ys o)

pub read_u32-write_u32 :
    (v o : ℕ) (ys : List ℕ)
    → v < 2 ^ 32
    → read_u32 (reader_at o (write_u32 v ++ ys)) ≡ got v (reader_at (o + 4) ys)
unfolding read_u32
read_u32-write_u32 v o ys l =
    let low : v % 2 ^ 32 ≡ v = omega (arith, l) in
    rw
      (
        read_raw_of_length 4 (write_u32 v) ys o (length-little_endian 4 (v % 2 ^ 32)),
        read_u32,
        low,
        from-little_endian 4 v l,
      )
      refl

pub read_u64-write :
    (v o : ℕ) (ys : List ℕ)
    → v < 2 ^ 64
    → read_u64 (reader_at o (little_endian 8 v ++ ys)) ≡ got v (reader_at (o + 8) ys)
unfolding read_u64
read_u64-write v o ys l =
    rw
      (
        read_raw_of_length 8 (little_endian 8 v) ys o (length-little_endian 8 v),
        read_u64,
        from-little_endian 8 v l,
      )
      refl

-- Of the signed 64-bit integers, the bits.
abbrev pub InI64 : ℤ → Type 0
InI64 (pos n) = n < 2 ^ 63
InI64 (negsuc n) = n < 2 ^ 63

as_i64-as_u64 : (z : ℤ) → InI64 z → (as_u64 z < 2 ^ 64) × (as_i64 (as_u64 z) ≡ z)
unfolding as_u64
as_i64-as_u64 (pos n) l = (omega arith, ground (arith, l))
as_i64-as_u64 (negsuc n) l = (omega arith, ground (arith, l))

-- A signed 64-bit integer is read back from the eight bytes that were written for it.
pub read_i64-write_u64 :
    (z : ℤ) (o : ℕ) (ys : List ℕ)
    → InI64 z
    → read_i64 (reader_at o (write_u64 z ++ ys)) ≡ got z (reader_at (o + 8) ys)
unfolding read_i64
read_i64-write_u64 z o ys l =
    let (b, e) = as_i64-as_u64 z l in rw (read_u64-write (as_u64 z) o ys b, read_i64, e) refl
