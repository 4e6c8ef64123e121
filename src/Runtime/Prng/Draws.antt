-- ===== src/Runtime/Prng/Draws.antt =====
-- The range of what the generator draws, and the seeds for which it draws nothing but 0.
use sqlite_mem.Prelude.{
  ℕ, suc, ◌-◌, ◌*◌, ◌^◌, ◌<◌, ◌==◌, ◌≡◌, refl, arith, inl, inr, ltb, if◌then◌else◌, Bool-cases,
}
use sqlite_mem.Prelude.Int.{ℤ, pos, negsuc}
use sqlite_mem.Runtime.Prng.{u64, seeded, next_state, next_u64, as_i64, next_sqlite_random}

-- From -2^63 + 1 to 2^63 - 1.
abbrev pub InSqliteRange : ℤ → Type 0
InSqliteRange (pos n) = n < 2 ^ 63
InSqliteRange (negsuc n) = suc n < 2 ^ 63

signed_in_range :
    (b : ℕ) → b < 2 ^ 64 → InSqliteRange (if b == 2 ^ 63 then negsuc (2 ^ 63 - 2) else as_i64 b)
signed_in_range b l = elim (Bool-cases (b == 2 ^ 63)) [
  | inl least ↦ rw least (omega arith)
  | inr other ↦ elim (Bool-cases (ltb b (2 ^ 63))) [
    | inl low ↦ rw (other, low) (ground arith)
    | inr high ↦ rw (other, high) (ground arith)
  ]
]

-- Whatever the state, `nextSqliteRandom` draws a number from -2^63 + 1 to 2^63 - 1.
pub next_sqlite_random_bounds : (s : ℕ) → InSqliteRange (next_sqlite_random s)
unfolding next_sqlite_random next_u64
next_sqlite_random_bounds s =
    signed_in_range (u64 (next_state s * 0x2545f4914f6cdd1d)) (omega arith)

whole_multiple : (k : ℕ) → seeded (pos (suc k * 2 ^ 64)) ≡ 0
unfolding seeded
whole_multiple k = ground arith

-- A bigint seed that is a positive multiple of 2^64 draws 0, and stays in the state 0 from which it
-- draws 0 again.
pub next_u64_of_multiple :
    (k : ℕ) → next_u64 (seeded (pos (suc k * 2 ^ 64))) ≡ record { value = 0; state = 0 }
unfolding seeded next_u64 next_state
next_u64_of_multiple k = rw (whole_multiple k) refl
