-- ===== src/Expressions.antt =====
-- expressions/: what the evaluator of expressions calls.
pub mod Like
pub mod Operators
