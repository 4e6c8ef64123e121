-- ===== src/Serialization/Wire/Intern.antt =====
-- serialization/wire.ts: `InternPool`, and its tables of ids.
use sqlite_mem.Prelude.{
  ℕ, zero, suc, ◌+◌, ◌<◌, Text, text_eq, text_eq→eq, Bool, true, false, ◌&&◌, not, Option, none,
  some, List, [], ◌∷◌, ◌++◌, ◌≡◌, ◌⊎◌, refl, ◌∙◌, sym, length, get_elem?, if◌then◌else◌, leb, arith,
  inl, inr, Bool-cases, Option-cases, append_assoc, append-nil,
}
use mathlib.Core.Option.{some-injective}
use sqlite_mem.Storage.Cow.Maps.{Map, lookup, set}

pub record InternPool : Type 0 where
  pub counts : Map ℕ
  pub ids : Map ℕ
  pub list : List Text

-- The constructor: the empty string has the id 0.
abbrev pub new_pool : InternPool
new_pool = record { counts = []; ids = ([], 0) ∷ []; list = [] ∷ [] }

abbrev pub or_zero : Option ℕ → ℕ
or_zero none = 0
or_zero (some n) = n

-- `count`
unfoldable pub count : Text → InternPool → InternPool
unfolding set lookup
count s p = record p { counts = set s (or_zero (lookup s p.counts) + 1) p.counts }

-- A new id: the next place of the list.
abbrev pub add_id : Text → InternPool → InternPool
add_id s p = record p { ids = set s (length p.list) p.ids; list = p.list ++ s ∷ [] }

-- An id, and the pool behind it.
pub record Interned : Type 0 where
  pub id : ℕ
  pub pool : InternPool

-- `forceId`
unfoldable pub force_id : Text → InternPool → Interned
unfolding lookup set
force_id s p = elim (lookup s p.ids) [
  | some hit ↦ record { id = hit; pool = p }
  | none ↦ record { id = length p.list; pool = add_id s p }
]

-- `finalize`: ids for the strings that were counted twice at least.
abbrev pub has : Text → InternPool → Bool
has s p = elim (lookup s p.ids) [ none ↦ false | some i ↦ true ]

unfoldable pub finalize_counts : Map ℕ → InternPool → InternPool
unfolding lookup set
finalize_counts [] p = p
finalize_counts ((s, c) ∷ m) p =
    finalize_counts m (if leb 2 c && not (has s p) then add_id s p else p)

unfoldable pub finalize : InternPool → InternPool
unfolding finalize_counts
finalize p = finalize_counts p.counts p

-- Every id stands for its string.
pub record IsPool (p : InternPool) : Type 0 where
  pub stands : (s : Text) (i : ℕ) → lookup s p.ids ≡ some i → get_elem? p.list i ≡ some s

get_elem?-append :
    (xs ys : List Text) (i : ℕ) (s : Text)
    → get_elem? xs i ≡ some s
    → get_elem? (xs ++ ys) i ≡ some s
get_elem?-append [] ys i s e = cc
get_elem?-append (x ∷ xs) ys zero s e = e
get_elem?-append (x ∷ xs) ys (suc i) s e = get_elem?-append xs ys i s e

get_elem?_added : (xs : List Text) (s : Text) → get_elem? (xs ++ s ∷ []) (length xs) ≡ some s
get_elem?_added [] s = refl
get_elem?_added (x ∷ xs) s = get_elem?_added xs s

pub get_elem?-lt : (xs : List Text) (i : ℕ) (s : Text) → get_elem? xs i ≡ some s → i < length xs
get_elem?-lt [] i s e = cc
get_elem?-lt (x ∷ xs) zero s e = omega arith
get_elem?-lt (x ∷ xs) (suc i) s e = omega (arith, get_elem?-lt xs i s e)

-- Looking up in a map behind a write.
lookup-set :
    (k j : Text) (v w : ℕ) (m : Map ℕ)
    → lookup j (set k v m) ≡ some w
    → ((j ≡ k) × (v ≡ w)) ⊎ (lookup j m ≡ some w)
unfolding lookup set
lookup-set k j v w [] e = elim (Bool-cases (text_eq k j)) [
  | inl same ↦ inl (sym (text_eq→eq k j same), some-injective _ _ (rw same at e))
  | inr other ↦ cc (rw other at e)
]
lookup-set k j v w ((i, u) ∷ m) e = elim (Bool-cases (text_eq i k)) [
  | inl here ↦ elim (Bool-cases (text_eq i j)) [
    | inl same ↦ inl (
      sym (text_eq→eq i j same) ∙ text_eq→eq i k here,
      some-injective _ _ (rw same at (rw here at e)),
    )
    | inr other ↦ inr (rw other (rw other at (rw here at e)))
  ]
  | inr there ↦ elim (Bool-cases (text_eq i j)) [
    | inl same ↦ inr (rw same (rw same at (rw there at e)))
    | inr other ↦ elim (lookup-set k j v w m (rw other at (rw there at e))) [
      | inl both ↦ inl both
      | inr behind ↦ inr (rw other behind)
    ]
  ]
]

-- The list of `q` is that of `p` and more.
pub record Extends (xs zs : List Text) : Type 0 where
  pub more : List Text
  pub grown : zs ≡ xs ++ more

pub Extends-refl : (xs : List Text) → Extends xs xs
Extends-refl xs = record { more = []; grown = sym (append-nil xs) }

pub Extends-trans : {xs ys zs : List Text} → Extends xs ys → Extends ys zs → Extends xs zs
Extends-trans {xs} a b = record {
  more = a.more ++ b.more;
  grown = rw (b.grown, a.grown) (append_assoc xs a.more b.more);
}

pub get_elem?-Extends :
    {xs zs : List Text} (i : ℕ) (s : Text)
    → Extends xs zs
    → get_elem? xs i ≡ some s
    → get_elem? zs i ≡ some s
get_elem?-Extends {xs} i s a g = rw a.grown (get_elem?-append xs a.more i s g)

-- What `forceId` gives: a pool that stands, whose list is longer by the string or the same, and in it
-- the id of the string.
pub record IsInterned (s : Text) (p : InternPool) (r : Interned) : Type 0 where
  pub pool : IsPool r.pool
  pub extends : Extends p.list r.pool.list
  pub found : get_elem? r.pool.list r.id ≡ some s
  pub below : r.id < length r.pool.list

added-IsPool : (s : Text) (p : InternPool) → IsPool p → IsPool (add_id s p)
added-IsPool s p h = record {
  stands = λ t i e. elim (lookup-set s t (length p.list) i p.ids e) [
    | inl (same, place) ↦ rw (same, ← place) (get_elem?_added p.list s)
    | inr old ↦ get_elem?-append p.list (s ∷ []) i t (h.stands t i old)
  ];
}

pub force_id-IsInterned : (s : Text) (p : InternPool) → IsPool p → IsInterned s p (force_id s p)
unfolding force_id
force_id-IsInterned s p h = elim (Option-cases (lookup s p.ids)) [
  | inl new ↦
      rw (new, force_id)
        (record {
          pool = added-IsPool s p h;
          extends = record { more = s ∷ []; grown = refl };
          found = get_elem?_added p.list s;
          below = get_elem?-lt _ _ s (get_elem?_added p.list s);
        })
  | inr (i, hit) ↦
      rw (hit, force_id)
        (record {
          pool = h;
          extends = Extends-refl p.list;
          found = h.stands s i hit;
          below = get_elem?-lt p.list i s (h.stands s i hit);
        })
]

lookup-eq_nil : (s : Text) (i : ℕ) → lookup s new_pool.ids ≡ some i → (s ≡ []) × (i ≡ 0)
unfolding lookup text_eq
lookup-eq_nil [] i e = (refl, sym (some-injective _ _ e))
lookup-eq_nil (c ∷ s) i e = cc

pub new_pool-IsPool : IsPool new_pool
unfolding lookup
new_pool-IsPool = record {
  stands = λ s i e. let (none_left, first) = lookup-eq_nil s i e in rw (none_left, first) refl;
}
