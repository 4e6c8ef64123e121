-- ===== src/Runtime/Prng/Runs.antt =====
-- The generator on concrete seeds.
use sqlite_mem.Prelude.{◌*◌, ◌^◌, ◌≡◌, refl}
use sqlite_mem.Prelude.Int.{pos}
use sqlite_mem.Runtime.Prng.{seeded, next_u64, next_sqlite_random}
use sqlite_mem.Runtime.Prng.Draws.{InSqliteRange, next_sqlite_random_bounds, next_u64_of_multiple}

first_of_seed_1 : (next_u64 (seeded (pos 1))).value ≡ 5180492295206395165
unfolding next_u64 seeded
first_of_seed_1 = refl

next_sqlite_random_bounds_example : InSqliteRange (next_sqlite_random 1)
next_sqlite_random_bounds_example = next_sqlite_random_bounds 1

next_u64_of_multiple_example :
    next_u64 (seeded (pos (3 * 2 ^ 64))) ≡ record { value = 0; state = 0 }
next_u64_of_multiple_example = next_u64_of_multiple 2
