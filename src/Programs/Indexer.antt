-- ===== src/Programs/Indexer.antt =====
-- src/indexer/main.rs: the program of the indexer, from its environment to its result. The panic hook
-- only logs.
use fossil_headers_db.Prelude.{ℕ, Bool, false, Option, none, some, unwrap_or, ◌++◌, if◌then◌else◌}
use fossil_headers_db.Result.{Result, ok, err, ◌>>=◌, ◌>>◌, map_err, ok_or}
use fossil_headers_db.Text.{Text, text, parse_u64, parse_bool}
use fossil_headers_db.Errors.{BlockchainError, configuration}
use fossil_headers_db.Config.Indexing
use fossil_headers_db.Config.Indexing.{IndexingConfig, IndexingConfigBuilder}
use fossil_headers_db.Database.Action.{Action, Env, continue}
use fossil_headers_db.Initialization.Services.{Platform, start_indexing_services}
use fossil_headers_db.Programs.Tool.{handler_error}

-- The variables that are read; one whose value is not Unicode counts as unset.
pub record Variables : Type 0 where
  pub is_dev : Option Text
  pub db_connection_string : Option Text
  pub node_connection_string : Option Text
  pub index_transactions : Option Text
  pub start_block_offset : Option Text

-- The environment of the process, what it is behind the file `.env` or the message of a failure to
-- load it, and the message of a refused signal handler.
pub record Process : Type 0 where
  pub variables : Variables
  pub dotenv : Result Text Variables
  pub handler : Option Text

-- `is_ok_and(|v| v.parse().unwrap_or(false))`.
abbrev pub is_true : Option Text → Bool
is_true none = false
is_true (some v) = unwrap_or (parse_bool v) false

-- `.ok().and_then(|s| s.parse::<u64>().ok())`.
abbrev pub offset_of : Option Text → Option ℕ
offset_of none = none
offset_of (some s) = elim (parse_u64 s) [ ok n ↦ some n | err e ↦ none ]

unfoldable pub load : Process → Result BlockchainError Variables
load p =
    if is_true p.variables.is_dev
    then map_err (λ e. configuration (text "dotenv") (text "Failed to load .env file: " ++ e))
        p.dotenv
    else ok p.variables

unfoldable pub read_index_transactions : Option Text → Result BlockchainError Bool
read_index_transactions v = ok_or (parse_bool (unwrap_or v (text "false"))) (
    configuration (text "INDEX_TRANSACTIONS")
      (text "Invalid boolean value: provided string was not `true` or `false`"))

abbrev pub set_handler : Option Text → Result BlockchainError (Unit {0})
set_handler none = ok tt
set_handler (some refused) = err (handler_error refused)

unfoldable pub with_offset : Option ℕ → IndexingConfigBuilder → IndexingConfigBuilder
unfolding Indexing.with_start_block_offset
with_offset none b = b
with_offset (some n) b = Indexing.with_start_block_offset n b

-- The part of `main` before the services.
unfoldable pub configure : Process → Result BlockchainError IndexingConfig
unfolding load read_index_transactions with_offset Indexing.builder_new Indexing.with_db_conn_string
    Indexing.with_node_conn_string Indexing.with_should_index_txs Indexing.build
configure p = do
  vars ← load p
  db_conn_string ←
      ok_or vars.db_connection_string
        (configuration (text "DB_CONNECTION_STRING") (text "Environment variable must be set"))
  node_conn_string ←
      ok_or vars.node_connection_string
        (configuration (text "NODE_CONNECTION_STRING") (text "Environment variable not set"))
  should_index_txs ← read_index_transactions vars.index_transactions
  set_handler p.handler
  Indexing.build (
      with_offset (offset_of vars.start_block_offset) (
        Indexing.with_should_index_txs should_index_txs (
          Indexing.with_node_conn_string node_conn_string
            (Indexing.with_db_conn_string db_conn_string Indexing.builder_new))))

module _ (env : Env) (platform : Platform) where
  -- The result of the services is the result of the program.
  unfoldable pub main : Process → Action BlockchainError (Unit {0})
  main p w = continue (configure p) (start_indexing_services env platform) w

-- The configuration with the builder's defaults.
abbrev pub chosen : Text → Text → Bool → Option ℕ → IndexingConfig
chosen db_conn_string node_conn_string should_index_txs start_block_offset = record {
  db_conn_string = db_conn_string;
  node_conn_string = node_conn_string;
  should_index_txs = should_index_txs;
  max_retries = 10;
  poll_interval = 10;
  rpc_timeout = 300;
  rpc_max_retries = 5;
  index_batch_size = 100;
  start_block_offset = start_block_offset;
}
