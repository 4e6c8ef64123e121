-- ===== src/Serialization/Wire/Json/Values.antt =====
-- The values that the binary form can hold, and what they are once read back.
use sqlite_mem.Prelude.{
  ℕ, suc, ◌+◌, ◌<◌, ◌^◌, Text, text_eq, Bool, false, ◌||◌, none, some, ◌≡◌, length, arith,
}
use sqlite_mem.Prelude.Int.{ℤ, pos, negsuc}
use sqlite_mem.Serialization.Wire.Bytes.{InI64}
use sqlite_mem.Serialization.Wire.Json.{
  Json, Items, Entries, no_items, item, no_entries, entry, null, boolean, number, bigint, string,
  bytes, array, object, count_items, count_entries, Host, as_u32, as_i32, is_proto,
}

-- Of the signed 32-bit integers.
abbrev pub InI32 : ℤ → Type 0
InI32 (pos n) = n < 2 ^ 31
InI32 (negsuc n) = n < 2 ^ 31

pub as_i32-as_u32 : (z : ℤ) → InI32 z → (as_u32 z < 2 ^ 32) × (as_i32 (as_u32 z) ≡ z)
as_i32-as_u32 (pos n) l = (omega arith, ground (arith, l))
as_i32-as_u32 (negsuc n) l = (omega arith, ground (arith, l))

-- What the language promises: an integer of 32 bits is one, a double is its 64 bits, and a string
-- names the property that it spells.
pub record IsHost {F : Type 0} (host : Host F) : Type 0 where
  pub int32 : (f : F) (z : ℤ) → host.as_int32 f ≡ some z → InI32 z
  pub bits : (f : F) → host.to_bits f < 2 ^ 64
  pub double : (f : F) → host.of_bits (host.to_bits f) ≡ f
  pub key : (s : Text) → host.property_key (string s) ≡ s

module _ {F : Type 0} where
  -- Nesting and length of a value, a bound of the depth to which it is read.
  unfoldable mutual
    pub size : Json F → ℕ
    size (array vs) = suc (size_items vs)
    size (object es) = suc (size_entries es)
    size _ = 1

    pub size_items : Items F → ℕ
    size_items no_items = 0
    size_items (item v vs) = size v + size_items vs

    pub size_entries : Entries F → ℕ
    size_entries no_entries = 0
    size_entries (entry k v es) = suc (size v + size_entries es)

  -- No key stands twice, nor is among those that are seen already.
  abbrev pub DistinctKeys : (Text → Bool) → Entries F → Type 0
  DistinctKeys seen no_entries = Unit
  DistinctKeys seen (entry k v es) = (seen k ≡ false) × DistinctKeys (λ j. text_eq k j || seen j) es

  -- Values that JavaScript can hold: arrays, objects and byte arrays have fewer than 2^32 elements, an
  -- object's keys are distinct, and none is `__proto__`; and BigInts of 64 bits.
  unfoldable mutual
    pub Fits : Json F → Type 0
    Fits (bigint z) = InI64 z
    Fits (bytes b) = length b < 2 ^ 32
    Fits (array vs) = (count_items vs < 2 ^ 32) × FitsItems vs
    Fits (object es) = (count_entries es < 2 ^ 32) × DistinctKeys is_proto es × FitsEntries es
    Fits _ = Unit

    pub FitsItems : Items F → Type 0
    FitsItems no_items = Unit
    FitsItems (item v vs) = Fits v × FitsItems vs

    pub FitsEntries : Entries F → Type 0
    FitsEntries no_entries = Unit
    FitsEntries (entry k v es) = Fits v × FitsEntries es

module _ {F : Type 0} (host : Host F) where
  abbrev pub settled_number : F → F
  settled_number f = elim (host.as_int32 f) [ some z ↦ host.of_int32 z | none ↦ f ]

  -- What a value is once written and read: a number that passes for a 32-bit integer is that integer,
  -- so that -0 is 0; all else is as it was.
  unfoldable mutual
    pub settled : Json F → Json F
    settled (number f) = number (settled_number f)
    settled (array vs) = array (settled_items vs)
    settled (object es) = object (settled_entries es)
    settled null = null
    settled (boolean b) = boolean b
    settled (bigint z) = bigint z
    settled (string s) = string s
    settled (bytes b) = bytes b

    pub settled_items : Items F → Items F
    settled_items no_items = no_items
    settled_items (item v vs) = item (settled v) (settled_items vs)

    pub settled_entries : Entries F → Entries F
    settled_entries no_entries = no_entries
    settled_entries (entry k v es) = entry k (settled v) (settled_entries es)
