-- ===== src/Lib.antt =====
-- The indexer of Ethereum block headers.
--
-- Two services share a database. The quick service follows the chain: in each cycle it reads the
-- latest block that the table index_metadata records, asks the node for the latest finalized block,
-- fetches a range of headers behind the recorded one, and stores them and the new record in one
-- transaction. The batch service fills the past: in each cycle it searches the range that the
-- metadata gives for numbers without a row, fetches those blocks, stores them, and marks the
-- backfill as complete once none is missing. A command line tool works on the same table of
-- headers: it fills gaps and rows with null data, and follows the chain, one block at a time.
--
-- Which file models what:
-- - Types, Types/Hashes: src/types.rs. Utils: src/utils.rs. Errors: src/errors.rs; eyre's reports
--   and the errors of the database and HTTP libraries are data types with what the source asks of
--   them.
-- - Config: the configurations and builders of src/indexer/quick_service.rs,
--   src/indexer/batch_service.rs and src/indexer/lib.rs, and the chains of the two spawn functions.
-- - Router: src/router/mod.rs; the listener and the HTTP server are a parameter. Programs/Tool:
--   src/main.rs. Programs/Indexer: src/indexer/main.rs; the environment is a record of variables.
-- - Rpc, Rpc/Client, Rpc/Calls: the data, one call with its retries, and the functions and methods
--   that ask the node, of src/rpc/mod.rs.
-- - Database/Rows: the rows of src/repositories/ and the tables of migrations/, as lists of rows.
--   Database/Action: asynchronous code as a function of a World (the committed tables, those of the
--   open transaction, the number of questions asked so far, the sleeps) to a result and a World. An
--   Env answers the t-th question: what the node returns, whether a task panics or times out,
--   whether a statement is refused, whether the services are asked to stop.
-- - Repositories: src/repositories/block_header.rs and src/repositories/index_metadata.rs; an SQL
--   statement is its effect on the rows.
-- - Blocks: ranges of numbers and the sort, which both services use. Quick:
--   src/indexer/quick_service.rs. Batch: src/indexer/batch_service.rs. Each has one definition for
--   each method; proofs are in the modules below. Quick/Machine: the abstract machine of the quick
--   service, over the recorded block and the set of stored blocks.
-- - Initialization: initialize_index_metadata of src/indexer/lib.rs and what it calls;
--   Initialization/Completion: wait_for_thread_completion; Initialization/Services:
--   start_indexing_services, with DbConnection::new of src/db/mod.rs. The database driver, the runner
--   of the migrations and the scheduler of the three tasks are a parameter, Platform.
-- - Db: src/db/mod.rs, the pool, the retries, and the queries and the write of the command line tool.
--   Database/Sql: the clauses of its queries; Db/Grouping: what its grouping gives on an ascending
--   list. The query of find_first_gap has LIMIT 1 without ORDER BY, so the Env says which row the
--   server returns; where a theorem needs it to be the first one, that is a hypothesis, InOrder.
--   Commands: fill_gaps and update_from of src/commands/mod.rs. Commands/Tasks: the tasks that fetch
--   and write one block. The tasks of a batch run one after the other in the order of the list; where
--   a task waits, the Env says whether its timer or a panic cuts it off.
-- - System: the two services beside each other, as in start_indexing_services of
--   src/indexer/lib.rs, and beside the tool: any sequence of cycles and of runs of the tool.
-- - Tests: concrete inputs, runs, and the theorems applied to them.
--
-- Numbers: an i64 is an integer, and sums and differences wrap as in a release build; a u8 keeps
-- its wrap where it can be reached. Strings are lists of bytes. A transaction that is not committed
-- leaves the tables as they were; a commit that fails has not persisted anything; no other client
-- writes between the statements of one run.
--
-- Loops that are bounded in the source recurse on their bound: the rounds of retry_from and
-- fill_from are max_retries. The search over chunks runs on as much fuel as the range has numbers,
-- and each round takes at least one off. The services' own loops run until they are told to stop,
-- so their fuel is an argument, and a run that has not ended returns none. The rounds of the tool's
-- two fills have fuel for two more than the difference of the range's ends, since each round starts
-- at least one block further.
--
-- Not modelled: logging, the panic hook, the HTTP transport, JSON parsing and the parsing of command
-- line arguments; BlockHeaderWithFullTransaction of src/rpc/mod.rs, which nothing uses. The scheduler
-- is a parameter where the three services run at once; their steps beside each other are the whole
-- cycles of System. The router's requests are not interleaved with the statements of the services.
pub mod Prelude
pub mod Result
pub mod Text
pub mod Errors
pub mod Types
pub mod Utils
pub mod Config
pub mod Rpc
pub mod Database
pub mod Repositories
pub mod Blocks
pub mod Quick
pub mod Router
pub mod Batch
pub mod Db
pub mod Commands
pub mod System
pub mod Programs
pub mod Initialization
pub mod Tests
