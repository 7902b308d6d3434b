-- ===== src/Repositories.antt =====
-- src/repositories: the conversions and the statements of the services.
pub mod Convert
pub mod Headers
pub mod Metadata
pub mod Lookup
pub mod Storing
pub mod Succeeding
pub mod Unique
pub mod Replacing
pub mod ErrorNumber
