-- ===== src/Config.antt =====
-- The configurations of the services and their builders: the parts of
-- src/indexer/quick_service.rs, src/indexer/batch_service.rs and src/indexer/lib.rs that precede
-- the services.
pub mod Quick
pub mod Batch
pub mod Indexing
pub mod Validation
