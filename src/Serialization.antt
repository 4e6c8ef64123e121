-- ===== src/Serialization.antt =====
-- serialization/: the bytes of a snapshot.
pub mod Wire
