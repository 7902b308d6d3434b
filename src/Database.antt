-- ===== src/Database.antt =====
-- The database as the program's SQL sees it (migrations/), the state that the services share, and
-- what the outside answers: the node, the database server, the termination flag and the clock.
pub mod Sql
pub mod Rows
pub mod Action
