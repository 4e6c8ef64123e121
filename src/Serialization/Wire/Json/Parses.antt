-- ===== src/Serialization/Wire/Json/Parses.antt =====
-- What it is for a reader to read back what was written, and how readers in a row do it.
use sqlite_mem.Prelude.{
  ℕ, ◌+◌, ◌<◌, ◌^◌, some, List, [], ◌++◌, ◌≡◌, refl, ap, length, length-append, append_assoc, arith,
}
use sqlite_mem.Prelude.Int.{ℤ}
use sqlite_mem.Serialization.Wire.{
  Reader, got, write_u32, write_u64, little_endian, write_varint_u32, read_u32, read_u64, read_i64,
  read_raw, read_varint_u32,
}
use sqlite_mem.Serialization.Wire.Bytes.{
  reader_at, InI64, read_raw-append, read_u32-write_u32, read_u64-write, read_i64-write_u64,
}
use sqlite_mem.Serialization.Wire.Varints.{read_varint_u32-write_varint_u32}
use sqlite_mem.Serialization.Wire.Json.{Reading, then_read}

-- From `bytes`, whatever follows, `f` reads `v`, and leaves what follows.
pub record Parses {A : Type 0} (f : Reader → Reading A) (bytes : List ℕ) (v : A) : Type 0 where
  pub reads :
      (o : ℕ) (ys : List ℕ)
      → f (reader_at o (bytes ++ ys)) ≡ some (got v (reader_at (o + length bytes) ys))

module _ {A B : Type 0} where
  pub Parses-then :
      (f : Reader → Reading A) (k : A → Reader → Reading B) (a b : List ℕ) (v : A) (w : B)
      → Parses f a v
      → Parses (k v) b w
      → Parses (λ r. then_read (f r) k) (a ++ b) w
  Parses-then f k a b v w p q = record {
    reads = λ o ys.
        let place : o + length a + length b ≡ o + length (a ++ b) =
          omega (arith, length-append a b) in
        rw (append_assoc a b ys, p.reads o (b ++ ys), q.reads (o + length a) ys)
          (ap (λ u. some (got w (reader_at u ys))) place);
  }

  pub Parses-map :
      (f : Reader → Reading A) (g : A → B) (a : List ℕ) (v : A)
      → Parses f a v
      → Parses (λ r. then_read (f r) (λ x q. some (got (g x) q))) a (g v)
  Parses-map f g a v p = record { reads = λ o ys. rw (p.reads o ys) refl }

pub Parses-none : {A : Type 0} (v : A) → Parses (λ r. some (got v r)) [] v
Parses-none v = record { reads = λ o ys. ap (λ u. some (got v (reader_at u ys))) (omega arith) }

pub Parses-read_raw : (b : List ℕ) → Parses (λ r. some (read_raw (length b) r)) b b
Parses-read_raw b = record { reads = λ o ys. ap some (read_raw-append b ys o) }

pub Parses-read_varint_u32 :
    (n : ℕ) → n < 2 ^ 32 → Parses (λ r. some (read_varint_u32 r)) (write_varint_u32 n) n
Parses-read_varint_u32 n l = record {
  reads = λ o ys. ap some (read_varint_u32-write_varint_u32 n o ys l);
}

pub Parses-read_u32 : (n : ℕ) → n < 2 ^ 32 → Parses (λ r. some (read_u32 r)) (write_u32 n) n
unfolding little_endian
Parses-read_u32 n l = record { reads = λ o ys. ap some (read_u32-write_u32 n o ys l) }

pub Parses-read_u64 : (n : ℕ) → n < 2 ^ 64 → Parses (λ r. some (read_u64 r)) (little_endian 8 n) n
unfolding little_endian
Parses-read_u64 n l = record { reads = λ o ys. ap some (read_u64-write n o ys l) }

pub Parses-read_i64 : (z : ℤ) → InI64 z → Parses (λ r. some (read_i64 r)) (write_u64 z) z
unfolding little_endian
Parses-read_i64 z l = record { reads = λ o ys. ap some (read_i64-write_u64 z o ys l) }
