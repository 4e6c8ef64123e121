-- ===== src/Serialization/Wire/Json/Pools.antt =====
-- Writing a value only adds strings to the pool.
use sqlite_mem.Prelude.{Text}
use sqlite_mem.Serialization.Wire.Intern.{
  InternPool, IsPool, Extends, Extends-refl, Extends-trans, force_id-IsInterned,
}
use sqlite_mem.Serialization.Wire.Json.{
  Json, Items, Entries, no_items, item, no_entries, entry, null, boolean, number, bigint, string,
  bytes, array, object, Host, write_interned, write_bjv, write_items, write_entries,
}

-- A pool that still stands, with the strings of `p` where they were.
pub record Grown (p q : InternPool) : Type 0 where
  pub pool : IsPool q
  pub extends : Extends p.list q.list

Grown-refl : (p : InternPool) → IsPool p → Grown p p
Grown-refl p h = record { pool = h; extends = Extends-refl p.list }

Grown-trans : {p q r : InternPool} → Grown p q → Grown q r → Grown p r
Grown-trans a b = record { pool = b.pool; extends = Extends-trans a.extends b.extends }

pub write_interned-Grown :
    (s : Text) (p : InternPool) → IsPool p → Grown p (write_interned s p).pool
unfolding write_interned
write_interned-Grown s p h =
    let i = force_id-IsInterned s p h in record { pool = i.pool; extends = i.extends }

module _ {F : Type 0} (host : Host F) where
  mutual
    unfolding write_bjv

    pub write_bjv-Grown :
        (v : Json F) (p : InternPool) → IsPool p → Grown p (write_bjv host v p).pool
    write_bjv-Grown null p h = Grown-refl p h
    write_bjv-Grown (boolean b) p h = Grown-refl p h
    write_bjv-Grown (number f) p h = Grown-refl p h
    write_bjv-Grown (bigint z) p h = Grown-refl p h
    write_bjv-Grown (string s) p h = write_interned-Grown s p h
    write_bjv-Grown (bytes b) p h = Grown-refl p h
    write_bjv-Grown (array vs) p h = write_items-Grown vs p h
    write_bjv-Grown (object es) p h = write_entries-Grown es p h

    pub write_items-Grown :
        (vs : Items F) (p : InternPool) → IsPool p → Grown p (write_items host vs p).pool
    write_items-Grown no_items p h = Grown-refl p h
    write_items-Grown (item v vs) p h =
        let g = write_bjv-Grown v p h in
        Grown-trans g (write_items-Grown vs (write_bjv host v p).pool g.pool)

    pub write_entries-Grown :
        (es : Entries F) (p : InternPool) → IsPool p → Grown p (write_entries host es p).pool
    write_entries-Grown no_entries p h = Grown-refl p h
    write_entries-Grown (entry k v es) p h =
        let i = write_interned-Grown k p h in
        let g = write_bjv-Grown v (write_interned k p).pool i.pool in
        Grown-trans i (
          Grown-trans g
            (write_entries-Grown es (write_bjv host v (write_interned k p).pool).pool g.pool))
