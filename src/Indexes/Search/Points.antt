-- ===== src/Indexes/Search/Points.antt =====
-- The binary search finds where the keys that come before end, if no key that does follows one that
-- does not.
use sqlite_mem.Prelude.{
  ℕ, zero, suc, ◌+◌, ◌-◌, ◌/◌, ◌^◌, ◌≤◌, ◌<◌, Text, Bool, true, false, List, [], ◌∷◌, length, take,
  drop, All, ◌≡◌, arith, inl, inr, Bool-cases, ltb,
}
use sqlite_mem.Indexes.Search.{before_at, middle, find_point, partition_point}

-- The keys before an index come before, and those from it on do not.
pub record SplitsAt (before : Text → Bool) (keys : List Text) (r : ℕ) : Type 0 where
  pub within : r ≤ length keys
  pub front : (i : ℕ) → i < r → before_at before keys i ≡ true
  pub back : (i : ℕ) → r ≤ i → i < length keys → before_at before keys i ≡ false

-- What comes before is not behind what does not.
abbrev pub IsMonotone : (Text → Bool) → List Text → Type 0
IsMonotone before keys =
    (i j : ℕ)
    → i ≤ j
    → j < length keys
    → before_at before keys j ≡ true
    → before_at before keys i ≡ true

middle-eq : (lo hi : ℕ) → lo + hi < 2 ^ 32 → middle lo hi ≡ (lo + hi) / 2
middle-eq lo hi h = omega arith

module _ (before : Text → Bool) (keys : List Text) (mono : IsMonotone before keys)
    (small : length keys < 2 ^ 31) where
  not_before :
      (i j : ℕ)
      → i ≤ j
      → j < length keys
      → before_at before keys i ≡ false
      → before_at before keys j ≡ false
  not_before i j h k e = elim (Bool-cases (before_at before keys j)) [
    | inl comes ↦ cc (e, mono i j h k comes)
    | inr stays ↦ stays
  ]

  find_point-SplitsAt :
      (fuel lo hi : ℕ)
      → lo ≤ hi
      → hi ≤ length keys
      → hi - lo < fuel
      → ((i : ℕ) → i < lo → before_at before keys i ≡ true)
      → ((i : ℕ) → hi ≤ i → i < length keys → before_at before keys i ≡ false)
      → SplitsAt before keys (find_point before keys fuel lo hi)
  unfolding find_point
  find_point-SplitsAt zero lo hi o w f front back = absurd (omega arith)
  find_point-SplitsAt (suc fuel) lo hi o w f front back = elim (Bool-cases (ltb lo hi)) [
    | inr empty ↦
        rw empty
          (record { within = ground arith; front = front; back = λ i h k. back i (ground arith) k })
    | inl more ↦
        let m : middle lo hi ≡ (lo + hi) / 2 = middle-eq lo hi (omega arith) in
        elim (Bool-cases (before_at before keys (middle lo hi))) [
          | inl up ↦
              rw (more, up)
                (find_point-SplitsAt fuel (middle lo hi + 1) hi (ground arith) w (ground arith)
                  (λ i h. mono i (middle lo hi) (ground arith) (ground arith) up) back)
          | inr down ↦
              rw (more, down)
                (find_point-SplitsAt fuel lo (middle lo hi) (ground arith) (ground arith)
                  (ground arith) front (λ i h k. not_before (middle lo hi) i h k down))
        ]
  ]

  pub partition_point-SplitsAt : SplitsAt before keys (partition_point before keys)
  unfolding partition_point
  partition_point-SplitsAt =
      find_point-SplitsAt (suc (length keys)) 0 (length keys) (omega arith) (omega arith)
        (omega arith) (λ i h. absurd (omega arith)) (λ i h k. absurd (omega arith))

-- The same on the two parts of the list.
pub All-take :
    (before : Text → Bool) (keys : List Text) (r : ℕ)
    → ((i : ℕ) → i < r → before_at before keys i ≡ true)
    → All (λ key. before key ≡ true) (take r keys)
All-take before keys zero h = tt
All-take before [] (suc r) h = tt
All-take before (k ∷ ks) (suc r) h =
    (h 0 (omega arith), All-take before ks r (λ i l. h (suc i) (omega arith)))

pub All-drop :
    (before : Text → Bool) (keys : List Text) (r : ℕ)
    → ((i : ℕ) → r ≤ i → i < length keys → before_at before keys i ≡ false)
    → All (λ key. before key ≡ false) (drop r keys)
All-drop before [] zero h = tt
All-drop before (k ∷ ks) zero h = (
  h 0 (omega arith) (omega arith),
  All-drop before ks zero (λ i l m. h (suc i) (omega arith) (omega arith)),
)
All-drop before [] (suc r) h = tt
All-drop before (k ∷ ks) (suc r) h =
    All-drop before ks r (λ i l m. h (suc i) (omega arith) (omega arith))
