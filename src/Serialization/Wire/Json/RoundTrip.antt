-- ===== src/Serialization/Wire/Json/RoundTrip.antt =====
-- What `writeBjv` wrote, `readBjv` reads back.
use sqlite_mem.Prelude.{
  ℕ, zero, suc, ◌+◌, ◌≤◌, ◌<◌, ◌^◌, Text, text_eq, Bool, true, false, ◌||◌, some, List, [], ◌∷◌,
  ◌++◌, ◌≡◌, refl, ap, ◌∙◌, length, get_elem?, arith, Option-cases, inl, inr, append_assoc,
}
use mathlib.Core.Path.{subst}
use sqlite_mem.Serialization.Wire.{got, write_u32, little_endian, write_varint_u32, read_u8}
use sqlite_mem.Serialization.Wire.Bytes.{reader_at}
use sqlite_mem.Serialization.Wire.Intern.{
  InternPool, IsPool, Extends, Extends-trans, get_elem?-Extends, get_elem?-lt, force_id,
  force_id-IsInterned,
}
use sqlite_mem.Serialization.Wire.Json.{
  Json, Items, Entries, no_items, item, no_entries, entry, null, boolean, number, bigint, string,
  bytes, array, object, count_items, count_entries, Host, as_u32, as_i32, write_number,
  write_interned, write_bjv, write_items, write_entries, or_empty, read_items, read_entries,
  read_tagged, read_bjv, is_proto,
}
use sqlite_mem.Serialization.Wire.Json.Parses.{
  Parses, Parses-then, Parses-map, Parses-none, Parses-read_raw, Parses-read_varint_u32,
  Parses-read_u32, Parses-read_u64, Parses-read_i64,
}
use sqlite_mem.Serialization.Wire.Json.Pools.{
  write_interned-Grown, write_bjv-Grown, write_items-Grown, write_entries-Grown,
}
use sqlite_mem.Serialization.Wire.Json.Values.{
  as_i32-as_u32, IsHost, size, size_items, size_entries, DistinctKeys, Fits, FitsItems, FitsEntries,
  settled_number, settled, settled_items, settled_entries,
}
use sqlite_mem.Serialization.Wire.Json.Appending.{
  append_entries, has_key, set_entry_new, has_key-append_entries, append_entries_none, size_pos,
  append_entries_assoc,
}

seen_next :
    {F : Type 0} (a j : Text) (u : Json F) (out : Entries F) (seen : Bool)
    → (has_key a out || is_proto a) ≡ seen
    → (has_key a (append_entries out (entry j u no_entries)) || is_proto a) ≡ (text_eq j a || seen)
seen_next a j u out seen e = rw (has_key-append_entries a j u out) (ground (arith, e))

module _ {F : Type 0} (host : Host F) (intern : List Text) where
  -- The tag, then what the tag says.
  read_bjv-Parses :
      (fuel tag : ℕ) (b : List ℕ) (v : Json F)
      → Parses (read_tagged host intern (read_bjv host intern fuel) tag) b v
      → Parses (read_bjv host intern (suc fuel)) (tag ∷ b) v
  unfolding read_bjv read_u8
  read_bjv-Parses fuel tag b v p = record {
    reads = λ o ys. p.reads (suc o) ys ∙ ap (λ u. some (got v (reader_at u ys))) (omega arith);
  }

  write_number-Parses :
      (h : IsHost host) (fuel : ℕ) (f : F)
      → Parses
          (read_bjv host intern (suc fuel))
          (write_number host f)
          (number (settled_number host f))
  unfolding write_number read_tagged
  write_number-Parses h fuel f = elim (Option-cases (host.as_int32 f)) [
    | inl other ↦
        rw (other, write_number, settled_number)
          (read_bjv-Parses fuel 5 _ _ (
            subst
              (λ u.
                Parses (read_tagged host intern (read_bjv host intern fuel) 5)
                  (little_endian 8 (host.to_bits f)) (number u))
              (h.double f)
              (Parses-map _ (λ b. number (host.of_bits b)) _ _
                (Parses-read_u64 (host.to_bits f) (h.bits f)))))
    | inr (z, int) ↦
        let (below, same) = as_i32-as_u32 z (h.int32 f z int) in
        rw (int, write_number, settled_number)
          (read_bjv-Parses fuel 3 _ _ (
            subst
              (λ u.
                Parses (read_tagged host intern (read_bjv host intern fuel) 3)
                  (write_u32 (as_u32 z)) (number (host.of_int32 u)))
              same
              (Parses-map _ (λ b. number (host.of_int32 (as_i32 b))) _ _
                (Parses-read_u32 (as_u32 z) below))))
  ]

  write_interned-Parses :
      (fuel : ℕ) (s : Text) (p : InternPool)
      → IsPool p
      → length intern < 2 ^ 32
      → Extends (write_interned s p).pool.list intern
      → Parses (read_bjv host intern (suc fuel)) (write_interned s p).bytes (string s)
  unfolding write_interned read_tagged
  write_interned-Parses fuel s p h small e =
      let r = force_id-IsInterned s p h in
      let found = get_elem?-Extends (force_id s p).id s e r.found in
      let below = get_elem?-lt intern (force_id s p).id s found in
      read_bjv-Parses fuel 6 _ _ (
        subst
          (λ u.
            Parses (read_tagged host intern (read_bjv host intern fuel) 6)
              (write_varint_u32 (force_id s p).id) (string (or_empty u)))
          found
          (Parses-map _ (λ i. string (or_empty (get_elem? intern i))) _ _
            (Parses-read_varint_u32 (force_id s p).id (omega (arith, below, small)))))

  write_bytes-Parses :
      (fuel : ℕ) (b : List ℕ)
      → length b < 2 ^ 32
      → Parses (read_bjv host intern (suc fuel)) (8 ∷ write_varint_u32 (length b) ++ b) (bytes b)
  unfolding read_tagged
  write_bytes-Parses fuel b l = read_bjv-Parses fuel 8 _ _ (
      Parses-then _ _ _ _ _ _ (Parses-read_varint_u32 (length b) l)
        (Parses-map _ bytes _ _ (Parses-read_raw b)))

  module _ (h : IsHost host) (small : length intern < 2 ^ 32) where
    mutual
      unfolding write_bjv size settled Fits read_tagged read_items read_entries

      write_bjv-Parses :
          (fuel : ℕ) (v : Json F) (p : InternPool)
          → size v ≤ fuel
          → Fits v
          → IsPool p
          → Extends (write_bjv host v p).pool.list intern
          → Parses (read_bjv host intern fuel) (write_bjv host v p).bytes (settled host v)
      write_bjv-Parses zero v p s f w e = absurd (omega (arith, size_pos v, s))
      write_bjv-Parses (suc fuel) null p s f w e = read_bjv-Parses fuel 0 [] null (Parses-none null)
      write_bjv-Parses (suc fuel) (boolean true) p s f w e =
          read_bjv-Parses fuel 2 [] (boolean true) (Parses-none (boolean true))
      write_bjv-Parses (suc fuel) (boolean false) p s f w e =
          read_bjv-Parses fuel 1 [] (boolean false) (Parses-none (boolean false))
      write_bjv-Parses (suc fuel) (number x) p s f w e = write_number-Parses h fuel x
      write_bjv-Parses (suc fuel) (bigint z) p s f w e =
          read_bjv-Parses fuel 4 _ _ (Parses-map _ bigint _ _ (Parses-read_i64 z f))
      write_bjv-Parses (suc fuel) (string t) p s f w e = write_interned-Parses fuel t p w small e
      write_bjv-Parses (suc fuel) (bytes b) p s f w e = write_bytes-Parses fuel b f
      write_bjv-Parses (suc fuel) (array vs) p s (n, f) w e = read_bjv-Parses fuel 9 _ _ (
          Parses-then _ _ _ _ _ _ (Parses-read_varint_u32 (count_items vs) n)
            (Parses-map _ array _ _ (write_items-Parses fuel vs p (omega (arith, s)) f w e)))
      write_bjv-Parses (suc fuel) (object es) p s (n, d, f) w e = read_bjv-Parses fuel 10 _ _ (
          Parses-then _ _ _ _ _ _ (Parses-read_varint_u32 (count_entries es) n) (
            Parses-map _ object _ _ (
              write_entries-Parses fuel es no_entries is_proto p (omega (arith, s)) d f w e
                (λ j. refl))))

      write_items-Parses :
          (fuel : ℕ) (vs : Items F) (p : InternPool)
          → size_items vs ≤ fuel
          → FitsItems vs
          → IsPool p
          → Extends (write_items host vs p).pool.list intern
          → Parses
              (read_items (read_bjv host intern fuel) (count_items vs))
              (write_items host vs p).bytes
              (settled_items host vs)
      write_items-Parses fuel no_items p s f w e = Parses-none no_items
      write_items-Parses fuel (item v vs) p s (f, fs) w e =
          let g = write_bjv-Grown host v p w in
          let q : InternPool = (write_bjv host v p).pool in
          let later = write_items-Grown host vs q g.pool in
          Parses-then _ _ _ _ _ _
            (write_bjv-Parses fuel v p (omega (arith, s)) f w (Extends-trans later.extends e))
            (Parses-map _ (item (settled host v)) _ _
              (write_items-Parses fuel vs q (omega (arith, s)) fs g.pool e))

      write_entries-Parses :
          (fuel : ℕ) (es out : Entries F) (seen : Text → Bool) (p : InternPool)
          → size_entries es ≤ fuel
          → DistinctKeys seen es
          → FitsEntries es
          → IsPool p
          → Extends (write_entries host es p).pool.list intern
          → ((j : Text) → (has_key j out || is_proto j) ≡ seen j)
          → Parses
              (read_entries host.property_key (read_bjv host intern fuel) (count_entries es) out)
              (write_entries host es p).bytes
              (append_entries out (settled_entries host es))
      write_entries-Parses fuel no_entries out seen p s d f w e k =
          rw (append_entries_none out) (Parses-none out)
      write_entries-Parses zero (entry j v es) out seen p s d f w e k = absurd (omega (arith, s))
      write_entries-Parses (suc fuel) (entry j v es) out seen p s (new, d) (f, fs) w e k =
          let i = write_interned-Grown j p w in
          let q : InternPool = (write_interned j p).pool in
          let g = write_bjv-Grown host v q i.pool in
          let r : InternPool = (write_bjv host v q).pool in
          let later = write_entries-Grown host es r g.pool in
          let u : Json F = settled host v in
          rw
            (
              append_assoc (write_interned j p).bytes (write_bjv host v q).bytes
                  (write_entries host es r).bytes,
              ← append_entries_assoc out j u (settled_entries host es),
            )
            (Parses-then _ _ _ _ _ _
              (write_interned-Parses fuel j p w small
                (Extends-trans g.extends (Extends-trans later.extends e)))
              (Parses-then _ _ _ _ _ _
                (write_bjv-Parses (suc fuel) v q (omega (arith, s)) f i.pool
                  (Extends-trans later.extends e))
                (rw (h.key j, set_entry_new j u out (k j ∙ new))
                  (write_entries-Parses (suc fuel) es (append_entries out (entry j u no_entries))
                    (λ a. text_eq j a || seen a) r (omega (arith, s)) d fs g.pool e
                    (λ a. seen_next a j u out (seen a) (k a))))))

-- Round trip of the binary form. For a value that fits, no key of which is `__proto__`, written into any pool that stands, a reader
-- that is given the pool's strings at the end (and perhaps more of them, fewer than 2^32 in all), with
-- fuel for the value's size, reads the value back from the bytes, whatever follows them, and leaves
-- what follows; a number that passes for a 32-bit integer is read as that integer.
pub read_bjv-write_bjv :
    {F : Type 0} (host : Host F) (intern : List Text) (v : Json F) (p : InternPool) (fuel o : ℕ)
    (ys : List ℕ)
    → IsHost host
    → Fits v
    → IsPool p
    → Extends (write_bjv host v p).pool.list intern
    → length intern < 2 ^ 32
    → size v ≤ fuel
    → let b = (write_bjv host v p).bytes in
      read_bjv host intern fuel (reader_at o (b ++ ys))
      ≡ some (got (settled host v) (reader_at (o + length b) ys))
read_bjv-write_bjv host intern v p fuel o ys h f w e small s =
    (write_bjv-Parses host intern h small fuel v p s f w e).reads o ys
