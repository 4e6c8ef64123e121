-- ===== src/Serialization/Wire/Json/Runs.antt =====
-- A value written and read back, with three numbers in place of JavaScript's.
use sqlite_mem.Prelude.{
  ℕ, ◌+◌, ◌==◌, Text, codes, Option, none, some, List, [], ◌∷◌, ◌++◌, ◌≡◌, refl, sym, ◌<◌, ◌^◌,
  length, if◌then◌else◌, arith, text_eq,
}
use mathlib.Core.Option.{some-injective}
use sqlite_mem.Prelude.Int.{ℤ, pos}
use sqlite_mem.Serialization.Wire.{got}
use sqlite_mem.Serialization.Wire.Bytes.{reader_at}
use sqlite_mem.Serialization.Wire.Varints.{read_varint_u32-write_varint_u32}
use sqlite_mem.Serialization.Wire.{write_varint_u32, read_varint_u32}
use sqlite_mem.Serialization.Wire.{write_text, read_text}
use sqlite_mem.Serialization.Wire.Varints.{read_text-write_text}
use sqlite_mem.Serialization.Wire.Intern.{new_pool, new_pool-IsPool, Extends-refl}
use sqlite_mem.Serialization.Wire.Json.{
  Json, Host, no_items, item, no_entries, entry, number, string, bytes, array, object, write_bjv,
  read_bjv, is_proto,
}
use sqlite_mem.Serialization.Wire.Json.Values.{IsHost, InI32, Fits, size, settled}
use sqlite_mem.Serialization.Wire.Json.RoundTrip.{read_bjv-write_bjv}

data Num : Type 0 where
  plus_zero minus_zero half : Num

abbrev key_text : Json Num → Text
key_text (string s) = s
key_text _ = []

abbrev int32_of : Num → Option ℤ
int32_of plus_zero = some (pos 0)
int32_of minus_zero = some (pos 0)
int32_of half = none

abbrev bits_of : Num → ℕ
bits_of plus_zero = 0
bits_of minus_zero = 0x8000000000000000
bits_of half = 0x3fe0000000000000

abbrev host : Host Num
host = record {
  as_int32 = int32_of;
  of_int32 = λ z. plus_zero;
  to_bits = bits_of;
  of_bits = λ b. if b == 0 then plus_zero else if b == 0x3fe0000000000000 then half else minus_zero;
  decode = λ b. b;
  property_key = key_text;
}

int32_of-InI32 : (f : Num) (z : ℤ) → int32_of f ≡ some z → InI32 z
int32_of-InI32 plus_zero z e = rw (sym (some-injective _ _ e)) (omega arith)
int32_of-InI32 minus_zero z e = rw (sym (some-injective _ _ e)) (omega arith)
int32_of-InI32 half z e = cc

bits_of_lem : (f : Num) → (bits_of f < 2 ^ 64) × (host.of_bits (bits_of f) ≡ f)
bits_of_lem plus_zero = (omega arith, refl)
bits_of_lem minus_zero = (omega arith, refl)
bits_of_lem half = (omega arith, refl)

host-IsHost : IsHost host
host-IsHost = record {
  int32 = int32_of-InI32;
  bits = λ f. (bits_of_lem f).0;
  double = λ f. (bits_of_lem f).1;
  key = λ s. refl;
}

abbrev value : Json Num
value = object (
    entry (codes "a")
      (array (item (number minus_zero) (item (number half) (item (string (codes "a")) no_items))))
      (entry (codes "b") (bytes (1 ∷ 2 ∷ [])) no_entries))

abbrev written : List ℕ
written = (write_bjv host value new_pool).bytes

abbrev intern : List Text
intern = (write_bjv host value new_pool).pool.list

minus_zero_is_lost : settled host (number minus_zero) ≡ number plus_zero
unfolding settled
minus_zero_is_lost = refl

read_bjv-write_bjv_example :
    read_bjv host intern 9 (reader_at 0 (written ++ 7 ∷ []))
    ≡ some (got (settled host value) (reader_at (length written) (7 ∷ [])))
unfolding Fits size write_bjv text_eq is_proto
read_bjv-write_bjv_example =
    read_bjv-write_bjv host intern value new_pool 9 0 (7 ∷ []) host-IsHost
      (omega arith, (refl, (refl, tt)), ((omega arith, (tt, (tt, (tt, tt)))), (omega arith, tt)))
      new_pool-IsPool (Extends-refl intern) (omega arith) (omega arith)

read_varint_u32-write_varint_u32_example :
    read_varint_u32 (reader_at 0 (write_varint_u32 300 ++ 7 ∷ []))
    ≡ got 300 (reader_at (0 + length (write_varint_u32 300)) (7 ∷ []))
read_varint_u32-write_varint_u32_example =
    read_varint_u32-write_varint_u32 300 0 (7 ∷ []) (omega arith)

read_text-write_text_example :
    read_text (λ b. b) (reader_at 0 (write_text (λ s. s) (codes "ab") ++ 7 ∷ []))
    ≡ got (codes "ab") (reader_at (0 + length (write_text (λ s. s) (codes "ab"))) (7 ∷ []))
read_text-write_text_example =
    read_text-write_text (λ s. s) (λ b. b) (codes "ab") 0 (7 ∷ []) refl (omega arith)
