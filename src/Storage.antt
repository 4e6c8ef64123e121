-- ===== src/Storage.antt =====
-- storage/: the catalog of tables and indexes.
pub mod Cow
pub mod State
pub mod Table
