-- ===== src/Serialization/Wire/Json.antt =====
-- serialization/wire.ts: the binary form of JSON-like values, `writeBjv` and `readBjv`.
pub mod Parses
pub mod Pools
pub mod Values
mod Appending
pub mod RoundTrip
mod Runs
use sqlite_mem.Prelude.{
  ℕ, zero, suc, ◌+◌, ◌%◌, ◌^◌, ◌==◌, Text, codes, text_eq, Bool, true, false, Option, none, some,
  List, [], ◌∷◌, ◌++◌, length, get_elem?, if◌then◌else◌, ltb, ◌-◌,
}
use sqlite_mem.Prelude.Int.{ℤ, pos, negsuc}
use sqlite_mem.Errors.{Result, ok, err}
use sqlite_mem.Serialization.Wire.{
  Reader, Got, got, Read, invalid_snapshot, write_u8, write_u32, write_u64, little_endian,
  write_varint_u32, read_u8, read_u32, read_u64, read_i64, read_raw, read_varint_u32,
}
use sqlite_mem.Serialization.Wire.Intern.{InternPool, Interned, force_id}

-- The values. `F` is the type of JavaScript numbers; `null` is also what `undefined` is written as.
-- An object's entries are in the order of `Object.entries`.
mutual
  pub data Json (F : Type 0) : Type 0 where
    null : Json F
    boolean : Bool → Json F
    number : F → Json F
    bigint : ℤ → Json F
    string : Text → Json F
    bytes : List ℕ → Json F
    array : Items F → Json F
    object : Entries F → Json F

  pub data Items (F : Type 0) : Type 0 where
    no_items : Items F
    item : Json F → Items F → Items F

  pub data Entries (F : Type 0) : Type 0 where
    no_entries : Entries F
    entry : Text → Json F → Entries F → Entries F

abbrev pub count_items : {F : Type 0} → Items F → ℕ
count_items no_items = 0
count_items (item v vs) = suc (count_items vs)

abbrev pub count_entries : {F : Type 0} → Entries F → ℕ
count_entries no_entries = 0
count_entries (entry k v es) = suc (count_entries es)

-- What the language does with numbers and texts: `as_int32 f` is `f` as an integer where it is one
-- and lies in 32 signed bits, `to_bits` is `setFloat64`, `of_bits` `getFloat64`, `decode` is UTF-8
-- decoding, and `property_key` what a value is as the name of a property.
pub record Host (F : Type 0) : Type 0 where
  pub as_int32 : F → Option ℤ
  pub of_int32 : ℤ → F
  pub to_bits : F → ℕ
  pub of_bits : ℕ → F
  pub decode : List ℕ → Text
  pub property_key : Json F → Text

-- Two's complement in 32 bits: `value | 0` as `setUint32` writes it, and `getUint32() | 0`.
abbrev pub as_u32 : ℤ → ℕ
as_u32 (pos n) = n % 2 ^ 32
as_u32 (negsuc n) = 2 ^ 32 - 1 - n % 2 ^ 32

abbrev pub as_i32 : ℕ → ℤ
as_i32 b = if ltb b (2 ^ 31) then pos b else negsuc (2 ^ 32 - 1 - b)

-- The bytes that were written, and the pool behind them.
pub record Wrote : Type 0 where
  pub bytes : List ℕ
  pub pool : InternPool

abbrev pub wrote : List ℕ → InternPool → Wrote
wrote b p = record { bytes = b; pool = p }

-- Bytes before what was written.
abbrev pub behind : List ℕ → Wrote → Wrote
behind b w = record w { bytes = b ++ w.bytes }

-- An interned string: its tag and its id.
unfoldable pub write_interned : Text → InternPool → Wrote
unfolding force_id write_varint_u32
write_interned s p = let r = force_id s p in wrote (6 ∷ write_varint_u32 r.id) r.pool

module _ {F : Type 0} (host : Host F) where
  unfoldable pub write_number : F → List ℕ
  unfolding little_endian
  write_number f = elim (host.as_int32 f) [
    | some z ↦ 3 ∷ write_u32 (as_u32 z)
    | none ↦ 5 ∷ little_endian 8 (host.to_bits f)
  ]

  unfoldable mutual
    unfolding write_number write_interned write_varint_u32

    -- `writeBjv`
    pub write_bjv : Json F → InternPool → Wrote
    write_bjv null p = wrote (0 ∷ []) p
    write_bjv (boolean b) p = wrote ((if b then 2 else 1) ∷ []) p
    write_bjv (number f) p = wrote (write_number f) p
    write_bjv (bigint z) p = wrote (4 ∷ write_u64 z) p
    write_bjv (string s) p = write_interned s p
    write_bjv (bytes b) p = wrote (8 ∷ write_varint_u32 (length b) ++ b) p
    write_bjv (array vs) p = behind (9 ∷ write_varint_u32 (count_items vs)) (write_items vs p)
    write_bjv (object es) p = behind (10 ∷ write_varint_u32 (count_entries es)) (write_entries es p)

    pub write_items : Items F → InternPool → Wrote
    write_items no_items p = wrote [] p
    write_items (item v vs) p = let w = write_bjv v p in behind w.bytes (write_items vs w.pool)

    pub write_entries : Entries F → InternPool → Wrote
    write_entries no_entries p = wrote [] p
    write_entries (entry k v es) p =
        let i = write_interned k p in
        let w = write_bjv v i.pool in behind (i.bytes ++ w.bytes) (write_entries es w.pool)

-- What reading gives; `none` is the end of the fuel.
abbrev pub Reading : Type 0 → Type 0
Reading A = Option (Result (Got A))

-- The code behind a read, which runs if the read returns.
abbrev pub then_read : {A B : Type 0} → Reading A → (A → Reader → Reading B) → Reading B
then_read none k = none
then_read (some (err e)) k = some (err e)
then_read (some (ok g)) k = k g.value g.reader

-- The name under which an assignment sets an object's prototype, or does nothing.
unfoldable pub is_proto : Text → Bool
unfolding text_eq
is_proto k = text_eq k (codes "__proto__")

abbrev pub or_empty : Option Text → Text
or_empty none = []
or_empty (some s) = s

module _ {F : Type 0} where
  unfoldable pub set_own : Text → Json F → Entries F → Entries F
  set_own k v no_entries = entry k v no_entries
  set_own k v (entry j w es) =
      let rest = set_own k v es in if text_eq j k then entry j v es else entry j w rest

  -- `out[key] = value`: an entry that is there keeps its place, and `__proto__` makes no entry.
  unfoldable pub set_entry : Text → Json F → Entries F → Entries F
  unfolding set_own
  set_entry k v es = if is_proto k then es else set_own k v es

  -- The loops over an array's items and an object's entries, over a reader of one value.
  unfoldable pub read_items : (Reader → Reading (Json F)) → ℕ → Reader → Reading (Items F)
  read_items f zero r = some (got no_items r)
  read_items f (suc n) r =
      then_read (f r) (λ v q. then_read (read_items f n q) (λ vs q'. some (got (item v vs) q')))

  unfoldable pub read_entries :
      (Json F → Text) → (Reader → Reading (Json F)) → ℕ → Entries F → Reader → Reading (Entries F)
  unfolding set_entry
  read_entries key f zero out r = some (got out r)
  read_entries key f (suc n) out r =
      then_read (f r)
        (λ k q. then_read (f q) (λ v q'. read_entries key f n (set_entry (key k) v out) q'))

  module _ (host : Host F) (intern : List Text) where
    -- The branches of `readBjv`, over its recursive calls.
    unfoldable pub read_tagged : (Reader → Reading (Json F)) → ℕ → Reader → Reading (Json F)
    unfolding read_items read_entries read_varint_u32 read_u32 read_u64 read_i64 read_raw
    read_tagged f tag r =
        if tag == 0
        then some (got null r)
        else if tag == 1
        then some (got (boolean false) r)
        else if tag == 2
        then some (got (boolean true) r)
        else if tag == 3
        then then_read (some (read_u32 r)) (λ b q. some (got (number (host.of_int32 (as_i32 b))) q))
        else if tag == 4
        then then_read (some (read_i64 r)) (λ z q. some (got (bigint z) q))
        else if tag == 5
        then then_read (some (read_u64 r)) (λ b q. some (got (number (host.of_bits b)) q))
        else if tag == 6
        then then_read (some (read_varint_u32 r))
            (λ i q. some (got (string (or_empty (get_elem? intern i))) q))
        else if tag == 7
        then then_read (some (read_varint_u32 r)) (λ n q.
          then_read (some (read_raw n q)) (λ b q'. some (got (string (host.decode b)) q')))
        else if tag == 8
        then then_read (some (read_varint_u32 r))
            (λ n q. then_read (some (read_raw n q)) (λ b q'. some (got (bytes b) q')))
        else if tag == 9
        then then_read (some (read_varint_u32 r))
            (λ n q. then_read (read_items f n q) (λ vs q'. some (got (array vs) q')))
        else if tag == 10
        then then_read (some (read_varint_u32 r)) (λ n q.
          then_read (read_entries host.property_key f n no_entries q)
            (λ es q'. some (got (object es) q')))
        else some (err invalid_snapshot)

    -- `readBjv`, on fuel for the depth of the value.
    unfoldable pub read_bjv : ℕ → Reader → Reading (Json F)
    unfolding read_tagged read_u8
    read_bjv zero r = none
    read_bjv (suc fuel) r =
        then_read (some (read_u8 r)) (λ tag q. read_tagged (read_bjv fuel) tag q)
