-- ===== src/Serialization/Wire/Json/Appending.antt =====
-- The entries of a JSON object, one after another.
use sqlite_mem.Prelude.{◌≤◌, Text, text_eq, Bool, false, ◌||◌, ◌≡◌, refl, ap, arith}
use sqlite_mem.Serialization.Wire.Json.{
  Json, Entries, no_entries, entry, null, boolean, number, bigint, string, bytes, array, object,
  set_own, is_proto, set_entry,
}
use sqlite_mem.Serialization.Wire.Json.Values.{size}

module _ {F : Type 0} where
  abbrev pub append_entries : Entries F → Entries F → Entries F
  append_entries no_entries fs = fs
  append_entries (entry k v es) fs = entry k v (append_entries es fs)

  abbrev pub has_key : Text → Entries F → Bool
  has_key k no_entries = false
  has_key k (entry j v es) = text_eq j k || has_key k es

  set_own_new :
      (k : Text) (v : Json F) (es : Entries F)
      → has_key k es ≡ false
      → set_own k v es ≡ append_entries es (entry k v no_entries)
  unfolding set_own
  set_own_new k v no_entries e = refl
  set_own_new k v (entry j w es) e = ground (arith, set_own_new k v es)

  pub set_entry_new :
      (k : Text) (v : Json F) (es : Entries F)
      → (has_key k es || is_proto k) ≡ false
      → set_entry k v es ≡ append_entries es (entry k v no_entries)
  unfolding set_entry
  set_entry_new k v es e = ground (arith, set_own_new k v es)

  pub has_key-append_entries :
      (j k : Text) (v : Json F) (es : Entries F)
      → has_key j (append_entries es (entry k v no_entries)) ≡ (text_eq k j || has_key j es)
  has_key-append_entries j k v no_entries = refl
  has_key-append_entries j k v (entry i w es) = ground (arith, has_key-append_entries j k v es)

  pub append_entries_none : (es : Entries F) → append_entries es no_entries ≡ es
  append_entries_none no_entries = refl
  append_entries_none (entry k v es) = ap (entry k v) (append_entries_none es)

  pub size_pos : (v : Json F) → 1 ≤ size v
  unfolding size
  size_pos null = omega arith
  size_pos (boolean b) = omega arith
  size_pos (number x) = omega arith
  size_pos (bigint z) = omega arith
  size_pos (string t) = omega arith
  size_pos (bytes b) = omega arith
  size_pos (array vs) = omega arith
  size_pos (object es) = omega arith

  pub append_entries_assoc :
      (es : Entries F) (k : Text) (v : Json F) (fs : Entries F)
      → append_entries (append_entries es (entry k v no_entries)) fs
        ≡ append_entries es (entry k v fs)
  append_entries_assoc no_entries k v fs = refl
  append_entries_assoc (entry i w es) k v fs = ap (entry i w) (append_entries_assoc es k v fs)
