-- ===== src/Runtime/Prng.antt =====
-- runtime/prng.ts: `Prng`, xorshift64* on an unsigned 64-bit state.
pub mod Draws
mod Runs
use Prim.Native.Nat.{bit_xor}
use sqlite_mem.Prelude.{
  ◌<◌, ◌≤◌, ◌≡◌, arith, ℕ, ◌+◌, ◌-◌, ◌*◌, ◌/◌, ◌%◌, ◌^◌, ◌==◌, if◌then◌else◌, ltb,
}
use sqlite_mem.Prelude.Int.{ℤ, pos, negsuc}

-- `BigInt.asUintN(64, x)` of a non-negative `x`.
abbrev pub u64 : ℕ → ℕ
u64 x = x % 2 ^ 64

-- `BigInt.asUintN(64, x)` of any `x`.
unfoldable pub as_u64 : ℤ → ℕ
as_u64 (pos n) = u64 n
as_u64 (negsuc n) = 2 ^ 64 - 1 - u64 n

-- The constructor: the state for a seed, given as a bigint (a number is first made a 32-bit one).
unfoldable pub seeded : ℤ → ℕ
unfolding as_u64
seeded (pos n) = if n == 0 then 0x9e3779b97f4a7c15 else u64 n
seeded (negsuc n) = as_u64 (negsuc n)

-- A drawn value and the state behind it.
pub record Draw : Type 0 where
  pub value : ℕ
  pub state : ℕ

-- `nextU64`. `x` may pass 64 bits between the three steps, as in the source.
unfoldable pub next_state : ℕ → ℕ
next_state s =
    let x = bit_xor s (u64 (s / 2 ^ 12)) in
    let y = bit_xor x (u64 (x * 2 ^ 25)) in u64 (bit_xor y (u64 (y / 2 ^ 27)))

unfoldable pub next_u64 : ℕ → Draw
unfolding next_state
next_u64 s = record { value = u64 (next_state s * 0x2545f4914f6cdd1d); state = next_state s }

-- `BigInt.asIntN(64, bits)` of an unsigned 64-bit `bits`.
abbrev pub as_i64 : ℕ → ℤ
as_i64 b = if ltb b (2 ^ 63) then pos b else negsuc (2 ^ 64 - 1 - b)

-- `nextSqliteRandom`: -2^63 becomes -2^63 + 1.
unfoldable pub next_sqlite_random : ℕ → ℤ
unfolding next_u64
next_sqlite_random s =
    let bits = (next_u64 s).value in if bits == 2 ^ 63 then negsuc (2 ^ 63 - 2) else as_i64 bits

-- `setState`
unfoldable pub set_state : ℕ → ℕ
set_state s = u64 s

pub set_state_lem : (s : ℕ) → s < 2 ^ 64 → set_state s ≡ s
unfolding set_state
set_state_lem s l = omega (arith, l)

pub next_state-lt : (s : ℕ) → next_state s < 2 ^ 64
unfolding next_state
next_state-lt s = omega arith
