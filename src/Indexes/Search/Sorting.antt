-- ===== src/Indexes/Search/Sorting.antt =====
-- Sorting by a comparison puts the keys in the order of any relation that the comparison decides.
use Prim.Native.Nat.{Ordering}
use sqlite_mem.Prelude.{
  ℕ, zero, suc, ◌≤◌, ◌<◌, Text, Bool, true, false, List, [], ◌∷◌, length, All, ◌≡◌, refl, ap, ◌∙◌,
  arith, inl, inr, Bool-cases,
}
use sqlite_mem.Indexes.Search.{is_gt, insert_key, sort_keys, before_at}

-- Each key has the relation to all behind it.
abbrev pub Ascending : (Text → Text → Type 0) → List Text → Type 0
Ascending rel [] = Unit
Ascending rel (k ∷ ks) = All (λ j. rel k j) ks × Ascending rel ks

pub length-insert_key :
    (cmp : Text → Text → Ordering) (k : Text) (js : List Text)
    → length (insert_key cmp k js) ≡ suc (length js)
unfolding insert_key
length-insert_key cmp k [] = refl
length-insert_key cmp k (j ∷ js) = ground (arith, length-insert_key cmp k js)

pub length-sort_keys :
    (cmp : Text → Text → Ordering) (ks : List Text) → length (sort_keys cmp ks) ≡ length ks
unfolding sort_keys
length-sort_keys cmp [] = refl
length-sort_keys cmp (k ∷ ks) =
    length-insert_key cmp k (sort_keys cmp ks) ∙ ap suc (length-sort_keys cmp ks)

module _ (cmp : Text → Text → Ordering) where
  insert_key-All :
      (P : Text → Type 0) (k : Text) (js : List Text) → P k → All P js → All P (insert_key cmp k js)
  unfolding insert_key
  insert_key-All P k [] p h = (p, tt)
  insert_key-All P k (j ∷ js) p (q, h) = elim (Bool-cases (is_gt (cmp k j))) [
    | inl behind ↦ rw behind (q, insert_key-All P k js p h)
    | inr before ↦ rw before (p, (q, h))
  ]

  pub sort_keys-All : (P : Text → Type 0) (ks : List Text) → All P ks → All P (sort_keys cmp ks)
  unfolding sort_keys
  sort_keys-All P [] h = tt
  sort_keys-All P (k ∷ ks) (p, h) = insert_key-All P k (sort_keys cmp ks) p (sort_keys-All P ks h)

  -- `Good` keys are those on which the comparison decides the relation.
  module _ (Good : Text → Type 0) (rel : Text → Text → Type 0)
      (trans : (a b c : Text) → Good a → Good b → Good c → rel a b → rel b c → rel a c)
      (of_not_gt : (a b : Text) → Good a → Good b → is_gt (cmp a b) ≡ false → rel a b)
      (of_gt : (a b : Text) → Good a → Good b → is_gt (cmp a b) ≡ true → rel b a) where
    weaken :
        (a b : Text) (js : List Text)
        → Good a
        → Good b
        → All Good js
        → rel a b
        → All (λ j. rel b j) js
        → All (λ j. rel a j) js
    weaken a b [] g h k r s = tt
    weaken a b (j ∷ js) g h (m, k) r (p, s) = (trans a b j g h m r p, weaken a b js g h k r s)

    insert_key-Ascending :
        (k : Text) (js : List Text)
        → Good k
        → All Good js
        → Ascending rel js
        → Ascending rel (insert_key cmp k js)
    unfolding insert_key
    insert_key-Ascending k [] g h a = (tt, tt)
    insert_key-Ascending k (j ∷ js) g (m, h) (b, a) = elim (Bool-cases (is_gt (cmp k j))) [
      | inl behind ↦ rw behind (
        insert_key-All (λ i. rel j i) k js (of_gt k j g m behind) b,
        insert_key-Ascending k js g h a,
      )
      | inr before ↦
          let first = of_not_gt k j g m before in
          rw before ((first, weaken k j js g m h first b), (b, a))
    ]

    pub sort_keys-Ascending : (ks : List Text) → All Good ks → Ascending rel (sort_keys cmp ks)
    unfolding sort_keys
    sort_keys-Ascending [] h = tt
    sort_keys-Ascending (k ∷ ks) (g, h) =
        insert_key-Ascending k (sort_keys cmp ks) g (sort_keys-All Good ks h)
          (sort_keys-Ascending ks h)

-- What comes before along the relation, comes before along keys in its order.
module _ (Good : Text → Type 0) (rel : Text → Text → Type 0) (before : Text → Bool)
    (down : (a b : Text) → Good a → Good b → rel a b → before b ≡ true → before a ≡ true) where
  head_before :
      (k : Text) (ks : List Text) (j : ℕ)
      → Good k
      → All Good ks
      → All (λ i. rel k i) ks
      → j < length ks
      → before_at before ks j ≡ true
      → before k ≡ true
  head_before k [] j g h a l e = absurd (omega arith)
  head_before k (i ∷ ks) zero g (m, h) (r, a) l e = down k i g m r e
  head_before k (i ∷ ks) (suc j) g (m, h) (r, a) l e = head_before k ks j g h a (omega arith) e

  pub before_at_mono :
      (ks : List Text)
      → All Good ks
      → Ascending rel ks
      → (i j : ℕ) → i ≤ j
      → j < length ks
      → before_at before ks j ≡ true
      → before_at before ks i ≡ true
  before_at_mono [] h a i j l m e = absurd (omega arith)
  before_at_mono (k ∷ ks) h a zero zero l m e = e
  before_at_mono (k ∷ ks) (g, h) (r, a) zero (suc j) l m e =
      head_before k ks j g h r (omega arith) e
  before_at_mono (k ∷ ks) h a (suc i) zero l m e = absurd (omega arith)
  before_at_mono (k ∷ ks) (g, h) (r, a) (suc i) (suc j) l m e =
      before_at_mono ks h a i j (omega arith) (omega arith) e
