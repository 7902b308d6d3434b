-- ===== src/Errors.antt =====
-- src/errors.rs: the error type of the program, its messages and its conversions; and the reports
-- of the services, which carry either such an error, one of the database driver, or a message.
use fossil_headers_db.Prelude.{List, [], ◌∷◌, ℕ, ℤ, Bool, ◌++◌, if◌then◌else◌}
use fossil_headers_db.Text.{Text, text, show_nat, show_i64, IntErrorKind, show_int_error}

pub data BlockchainError : Type 0 where
  invalid_hex_format : Text → BlockchainError
  rpc_connection_failed : Text → BlockchainError
  rpc_timed_out : ℕ → BlockchainError
  block_missing : Text → BlockchainError
  transaction_missing : Text → BlockchainError
  database_connection_failed : Text → BlockchainError
  database_transaction_failed : Text → BlockchainError
  database_query_failed : Text → BlockchainError
  configuration_error : Text → Text → BlockchainError
  network_error : Text → BlockchainError
  block_validation_failed : ℤ → Text → BlockchainError
  transaction_validation_failed : Text → Text → BlockchainError
  invalid_block_range : ℤ → ℤ → BlockchainError
  concurrency_limit_exceeded : ℕ → ℕ → BlockchainError
  internal_error : Text → BlockchainError

-- The `#[error(...)]` attributes.
unfoldable pub display : BlockchainError → Text
display (invalid_hex_format m) = text "Invalid hex format: " ++ m
display (rpc_connection_failed m) = text "RPC connection failed: " ++ m
display (rpc_timed_out s) = text "RPC request timed out after " ++ (show_nat s ++ text " seconds")
display (block_missing b) = text "Block not found: " ++ b
display (transaction_missing t) = text "Transaction not found: " ++ t
display (database_connection_failed m) = text "Database connection failed: " ++ m
display (database_transaction_failed m) = text "Database transaction failed: " ++ m
display (database_query_failed m) = text "Database query failed: " ++ m
display (configuration_error p m) = text "Configuration error: " ++ (p ++ (text " - " ++ m))
display (network_error m) = text "Network error: " ++ m
display (block_validation_failed n r) =
    text "Block validation failed for block " ++ (show_i64 n ++ (text ": " ++ r))
display (transaction_validation_failed t r) =
    text "Transaction validation failed for " ++ (t ++ (text ": " ++ r))
display (invalid_block_range s e) =
    text "Invalid block range: start=" ++ (show_i64 s ++ (text ", end=" ++ show_i64 e))
display (concurrency_limit_exceeded c m) =
    text "Concurrency limit exceeded: " ++ (show_nat c ++ (text "/" ++ show_nat m))
display (internal_error m) = text "Internal error: " ++ m

unfoldable pub invalid_hex : Text → BlockchainError
invalid_hex value = invalid_hex_format (text "Cannot parse hex value: '" ++ (value ++ text "'"))

unfoldable pub invalid_format : Text → Text → BlockchainError
invalid_format field message =
    invalid_hex_format (text "Invalid " ++ (field ++ (text ": " ++ message)))

abbrev pub rpc_connection : Text → BlockchainError
rpc_connection m = rpc_connection_failed m

abbrev pub rpc_timeout : ℕ → BlockchainError
rpc_timeout s = rpc_timed_out s

abbrev pub block_not_found : Text → BlockchainError
block_not_found b = block_missing b

abbrev pub transaction_not_found : Text → BlockchainError
transaction_not_found t = transaction_missing t

abbrev pub database_connection : Text → BlockchainError
database_connection m = database_connection_failed m

abbrev pub database_transaction : Text → BlockchainError
database_transaction m = database_transaction_failed m

abbrev pub database_query : Text → BlockchainError
database_query m = database_query_failed m

abbrev pub configuration : Text → Text → BlockchainError
configuration p m = configuration_error p m

abbrev pub network : Text → BlockchainError
network m = network_error m

abbrev pub block_validation : ℤ → Text → BlockchainError
block_validation n r = block_validation_failed n r

abbrev pub transaction_validation : Text → Text → BlockchainError
transaction_validation t r = transaction_validation_failed t r

abbrev pub invalid_range : ℤ → ℤ → BlockchainError
invalid_range s e = invalid_block_range s e

abbrev pub concurrency_limit : ℕ → ℕ → BlockchainError
concurrency_limit c m = concurrency_limit_exceeded c m

abbrev pub internal : Text → BlockchainError
internal m = internal_error m

-- What the database driver answers instead of a result; a text is the error's own message.
pub data SqlxError : Type 0 where
  row_not_found pool_closed pool_timed_out : SqlxError
  database : Text → SqlxError
  other : Text → SqlxError

abbrev pub sqlx_message : SqlxError → Text
sqlx_message row_not_found =
    text "no rows returned by a query that expected to return at least one row"
sqlx_message pool_closed = text "attempted to acquire a connection on a closed pool"
sqlx_message pool_timed_out = text "pool timed out while waiting for an open connection"
sqlx_message (database m) = text "error returned from database: " ++ m
sqlx_message (other m) = m

-- `impl From<sqlx::Error>`.
unfoldable pub from_sqlx : SqlxError → BlockchainError
from_sqlx (database m) = database_query (text "Database error: " ++ m)
from_sqlx pool_closed = database_connection (text "Connection pool closed")
from_sqlx pool_timed_out = database_connection (text "Connection pool timed out")
from_sqlx e = database_connection (text "SQLx error: " ++ sqlx_message e)

-- What the source asks of a `reqwest::Error`, and its message.
pub record ReqwestError : Type 0 where
  pub is_timeout : Bool
  pub is_connect : Bool
  pub message : Text

-- `impl From<reqwest::Error>`.
unfoldable pub from_reqwest : ReqwestError → BlockchainError
from_reqwest e =
    if e.is_timeout
    then rpc_timeout 30
    else if e.is_connect
    then rpc_connection (text "Connection error: " ++ e.message)
    else network (text "Request error: " ++ e.message)

-- `impl From<serde_json::Error>`, of the error's own message, and `impl From<ParseIntError>`.
unfoldable pub from_serde : Text → BlockchainError
from_serde m = internal (text "JSON parsing error: " ++ m)

unfoldable pub from_parse_int : IntErrorKind → BlockchainError
unfolding invalid_hex
from_parse_int e = invalid_hex (text "Parse error: " ++ show_int_error e)

-- `eyre::Report`: what `?` turns into one, and the messages of `eyre!`.
pub data Report : Type 0 where
  blockchain : BlockchainError → Report
  sqlx : SqlxError → Report
  join_error : Report
  message : Text → Report

unfoldable pub show_report : Report → Text
show_report (blockchain e) = display e
show_report (sqlx e) = sqlx_message e
show_report join_error = text "task failed"
show_report (message m) = m

-- `impl From<eyre::Report>`.
unfoldable pub from_report : Report → BlockchainError
from_report r = internal (text "Legacy error: " ++ show_report r)

-- `std::error::Error::source` and what follows from it: no variant has a source.
abbrev pub sources : BlockchainError → List Text
sources e = []

unfoldable pub caused_by : Text → List Text → Text
caused_by mark [] = []
caused_by mark (source ∷ rest) = mark ++ (source ++ caused_by mark rest)

-- The texts for the log of the two programs' errors.
unfoldable pub format_error_chain : BlockchainError → Text
unfolding caused_by
format_error_chain e = display e ++ caused_by (text " -> ") (sources e)

unfoldable pub format_error_details : BlockchainError → Text
unfolding caused_by
format_error_details e =
    (text "Error: " ++ display e) ++ caused_by (10 ∷ text "  Caused by: ") (sources e)
