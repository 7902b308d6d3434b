-- ===== src/Config/Indexing.antt =====
-- src/indexer/lib.rs: `IndexingConfig` and its builder.
use fossil_headers_db.Prelude.{ℕ, Bool, false, ◌==◌, Option, none, some}
use fossil_headers_db.Result.{Result, ok, ◌>>=◌, ◌>>◌, fail_if, ok_or}
use fossil_headers_db.Text.{Text, text}
use fossil_headers_db.Errors.{BlockchainError, configuration}

pub record IndexingConfig : Type 0 where
  pub db_conn_string : Text
  pub node_conn_string : Text
  pub should_index_txs : Bool
  pub max_retries : ℕ  -- u8
  pub poll_interval : ℕ  -- u32
  pub rpc_timeout : ℕ  -- u32
  pub rpc_max_retries : ℕ  -- u32
  pub index_batch_size : ℕ  -- u32
  pub start_block_offset : Option ℕ  -- u64

pub record IndexingConfigBuilder : Type 0 where
  pub db_conn_string : Option Text
  pub node_conn_string : Option Text
  pub should_index_txs : Bool
  pub max_retries : ℕ
  pub poll_interval : ℕ
  pub rpc_timeout : ℕ
  pub rpc_max_retries : ℕ
  pub index_batch_size : ℕ
  pub start_block_offset : Option ℕ

unfoldable pub builder_new : IndexingConfigBuilder
builder_new = record {
  db_conn_string = none;
  node_conn_string = none;
  should_index_txs = false;
  max_retries = 10;
  poll_interval = 10;
  rpc_timeout = 300;
  rpc_max_retries = 5;
  index_batch_size = 100;
  start_block_offset = none;
}

unfoldable pub with_db_conn_string : Text → IndexingConfigBuilder → IndexingConfigBuilder
with_db_conn_string x b = record b { db_conn_string = some x }

unfoldable pub with_node_conn_string : Text → IndexingConfigBuilder → IndexingConfigBuilder
with_node_conn_string x b = record b { node_conn_string = some x }

unfoldable pub with_should_index_txs : Bool → IndexingConfigBuilder → IndexingConfigBuilder
with_should_index_txs x b = record b { should_index_txs = x }

unfoldable pub with_max_retries : ℕ → IndexingConfigBuilder → IndexingConfigBuilder
with_max_retries x b = record b { max_retries = x }

unfoldable pub with_poll_interval : ℕ → IndexingConfigBuilder → IndexingConfigBuilder
with_poll_interval x b = record b { poll_interval = x }

unfoldable pub with_rpc_timeout : ℕ → IndexingConfigBuilder → IndexingConfigBuilder
with_rpc_timeout x b = record b { rpc_timeout = x }

unfoldable pub with_rpc_max_retries : ℕ → IndexingConfigBuilder → IndexingConfigBuilder
with_rpc_max_retries x b = record b { rpc_max_retries = x }

unfoldable pub with_index_batch_size : ℕ → IndexingConfigBuilder → IndexingConfigBuilder
with_index_batch_size x b = record b { index_batch_size = x }

unfoldable pub with_start_block_offset : ℕ → IndexingConfigBuilder → IndexingConfigBuilder
with_start_block_offset x b = record b { start_block_offset = some x }

unfoldable pub development : IndexingConfigBuilder
unfolding builder_new with_max_retries with_poll_interval with_rpc_timeout with_rpc_max_retries
    with_index_batch_size
development = with_index_batch_size 10 (
    with_rpc_max_retries 3
      (with_rpc_timeout 60 (with_poll_interval 5 (with_max_retries 3 builder_new))))

unfoldable pub testing : IndexingConfigBuilder
unfolding builder_new with_max_retries with_poll_interval with_rpc_timeout with_rpc_max_retries
    with_index_batch_size
testing = with_index_batch_size 5 (
    with_rpc_max_retries 1
      (with_rpc_timeout 30 (with_poll_interval 1 (with_max_retries 1 builder_new))))

unfoldable pub production : IndexingConfigBuilder
unfolding builder_new with_max_retries with_poll_interval with_rpc_timeout with_rpc_max_retries
    with_index_batch_size
production = with_index_batch_size 100 (
    with_rpc_max_retries 5
      (with_rpc_timeout 300 (with_poll_interval 10 (with_max_retries 10 builder_new))))

unfoldable pub build : IndexingConfigBuilder → Result BlockchainError IndexingConfig
build b = do
  db ←
      ok_or b.db_conn_string
        (configuration (text "db_conn_string") (text "Database connection string is required"))
  node ←
      ok_or b.node_conn_string
        (configuration (text "node_conn_string") (text "Node connection string is required"))
  fail_if (b.max_retries == 0)
      (configuration (text "max_retries") (text "Max retries must be greater than 0"))
  fail_if (b.poll_interval == 0)
      (configuration (text "poll_interval") (text "Poll interval must be greater than 0"))
  fail_if (b.rpc_timeout == 0)
      (configuration (text "rpc_timeout") (text "RPC timeout must be greater than 0"))
  fail_if (b.index_batch_size == 0)
      (configuration (text "index_batch_size") (text "Index batch size must be greater than 0"))
  ok (record {
    db_conn_string = db;
    node_conn_string = node;
    should_index_txs = b.should_index_txs;
    max_retries = b.max_retries;
    poll_interval = b.poll_interval;
    rpc_timeout = b.rpc_timeout;
    rpc_max_retries = b.rpc_max_retries;
    index_batch_size = b.index_batch_size;
    start_block_offset = b.start_block_offset;
  })
