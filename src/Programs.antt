-- ===== src/Programs.antt =====
-- The two binaries, src/main.rs and src/indexer/main.rs.
pub mod Tool
pub mod Indexer
pub mod Outcome
