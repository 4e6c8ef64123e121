-- ===== src/Runtime.antt =====
-- runtime/: the random generator.
pub mod Prng
