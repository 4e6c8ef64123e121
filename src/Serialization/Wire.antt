-- ===== src/Serialization/Wire.antt =====
-- serialization/wire.ts: the writer, the reader and the variable-length integers.
-- A writer is the bytes that it has written, since it only appends; how its buffer grows is left out.
-- A reader is the bytes that are left, and the offset of the first of them.
pub mod Bytes
pub mod Varints
pub mod Intern
pub mod Json
use sqlite_mem.Prelude.{
  ℕ, zero, suc, ◌+◌, ◌-◌, ◌*◌, ◌/◌, ◌%◌, ◌^◌, ◌==◌, Text, codes, Bool, true, false, not, List, [],
  ◌∷◌, ◌++◌, length, take, drop, if◌then◌else◌, ltb, leb,
}
use sqlite_mem.Prelude.Int.{ℤ}
use sqlite_mem.Errors.{Result, ok, err, ◌>>=◌, SqliteError, sqlite_error, other}
use sqlite_mem.Runtime.Prng.{as_u64, as_i64}

-- `fail`, of the writer and of the reader.
abbrev pub invalid_snapshot : SqliteError
invalid_snapshot = sqlite_error (codes "invalid or truncated sqlite-mem snapshot") other

-- The `n` lowest bytes of `v`, little-endian: `setUint32`, `setBigUint64`.
unfoldable pub little_endian : ℕ → ℕ → List ℕ
little_endian zero v = []
little_endian (suc n) v = v % 256 ∷ little_endian n (v / 256)

-- `getUint32`, `getBigUint64`
unfoldable pub from_little_endian : List ℕ → ℕ
from_little_endian [] = 0
from_little_endian (b ∷ bs) = b + 256 * from_little_endian bs

-- Writer.u8, u32, u64 and i64: the bytes that they append.
abbrev pub write_u8 : ℕ → List ℕ
write_u8 v = v % 256 ∷ []

abbrev pub write_u32 : ℕ → List ℕ
write_u32 v = little_endian 4 (v % 2 ^ 32)

abbrev pub write_u64 : ℤ → List ℕ
write_u64 v = little_endian 8 (as_u64 v)

-- Writer.align4, at the position `len`.
abbrev pub align4 : ℕ → List ℕ
align4 len = take ((4 - len % 4) % 4) (0 ∷ 0 ∷ 0 ∷ [])

-- Writer.rawAt, on the bytes `w`.
unfoldable pub raw_at : ℕ → List ℕ → List ℕ → Result (List ℕ)
raw_at offset value w =
    if leb (offset + length value) (length w)
    then ok (take offset w ++ value ++ drop (offset + length value) w)
    else err invalid_snapshot

-- `writeVarintU32`: groups of seven bits, the lowest first, each but the last with the high bit set.
-- Behind four groups fewer than five bits are left, and the loop has ended.
unfoldable pub varint_groups : ℕ → ℕ → List ℕ
varint_groups zero v = v % 256 ∷ []
varint_groups (suc n) v =
    let rest = varint_groups n (v / 128) in if ltb v 128 then v ∷ [] else ((v % 128 + 128) ∷ rest)

unfoldable pub write_varint_u32 : ℕ → List ℕ
unfolding varint_groups
write_varint_u32 v = varint_groups 4 (v % 2 ^ 32)

pub record Reader : Type 0 where
  pub offset : ℕ
  pub rest : List ℕ

-- A value that was read, and the reader behind it.
pub record Got {ℓ} (A : Type ℓ) : Type ℓ where
  pub value : A
  pub reader : Reader

abbrev pub Read {ℓ} : Type ℓ → Type ℓ
Read A = Reader → Result (Got A)

abbrev pub got {ℓ} : {A : Type ℓ} → A → Reader → Result (Got A)
got a r = ok (record { value = a; reader = r })

-- The constructor.
abbrev pub new_reader : List ℕ → Reader
new_reader bytes = record { offset = 0; rest = bytes }

-- Reader.u8
unfoldable pub read_u8 : Read ℕ
read_u8 r = elim r.rest [
  | [] ↦ err invalid_snapshot
  | b ∷ bs ↦ got b (record { offset = suc r.offset; rest = bs })
]

-- Reader.raw
unfoldable pub read_raw : ℕ → Read (List ℕ)
read_raw n r =
    if leb n (length r.rest)
    then got (take n r.rest) (record { offset = r.offset + n; rest = drop n r.rest })
    else err invalid_snapshot

-- Reader.u32 and Reader.i64
unfoldable pub read_u32 : Read ℕ
unfolding read_raw
read_u32 r = read_raw 4 r >>= λ g. got (from_little_endian g.value) g.reader

unfoldable pub read_u64 : Read ℕ
unfolding read_raw
read_u64 r = read_raw 8 r >>= λ g. got (from_little_endian g.value) g.reader

unfoldable pub read_i64 : Read ℤ
unfolding read_u64
read_i64 r = read_u64 r >>= λ g. got (as_i64 g.value) g.reader

-- Reader.remaining and Reader.done
abbrev pub remaining : Reader → ℕ
remaining r = length r.rest

abbrev pub done : Reader → Bool
done r = remaining r == 0

-- `readVarintU32`, at a shift, with the result so far. The groups do not overlap, so that the source's
-- `|=` adds; and the result is kept as the unsigned number that its `>>> 0` makes of it at the end.
unfoldable pub varint_loop : ℕ → ℕ → ℕ → List ℕ → Result (Got ℕ)
varint_loop shift result offset [] = err invalid_snapshot
varint_loop shift result offset (b ∷ bs) =
    let next = (result + b % 128 * 2 ^ shift) % 2 ^ 32 in
    let more = varint_loop (shift + 7) next (suc offset) bs in
    if ltb b 128
    then got next (record { offset = suc offset; rest = bs })
    else if ltb 28 (shift + 7)
    then err invalid_snapshot
    else more

unfoldable pub read_varint_u32 : Read ℕ
unfolding varint_loop
read_varint_u32 r = varint_loop 0 0 r.offset r.rest

-- Writer.text and Reader.text, over the UTF-8 encoding and decoding of another file.
unfoldable pub write_text : (Text → List ℕ) → Text → List ℕ
unfolding write_varint_u32
write_text encode s = let b = encode s in write_varint_u32 (length b) ++ b

unfoldable pub read_text : (List ℕ → Text) → Read Text
unfolding read_varint_u32 read_raw
read_text decode r =
    read_varint_u32 r >>= λ n. read_raw n.value n.reader >>= λ b. got (decode b.value) b.reader
