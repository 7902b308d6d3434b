-- ===== src/Config/Batch.antt =====
-- src/indexer/batch_service.rs: `BatchIndexConfig` and its builder.
use fossil_headers_db.Prelude.{ℕ, Bool, false, ◌==◌}
use fossil_headers_db.Result.{Result, ok, ◌>>◌, fail_if}
use fossil_headers_db.Text.{text}
use fossil_headers_db.Errors.{BlockchainError, configuration}

pub record BatchIndexConfig : Type 0 where
  pub max_retries : ℕ  -- u8
  pub poll_interval : ℕ  -- u32
  pub rpc_timeout : ℕ  -- u32
  pub index_batch_size : ℕ  -- u32
  pub should_index_txs : Bool
  pub max_concurrent_requests : ℕ  -- usize
  pub task_timeout : ℕ  -- u32

-- The fields of the builder are those of the configuration.
pub record BatchIndexConfigBuilder : Type 0 where
  pub max_retries : ℕ
  pub poll_interval : ℕ
  pub rpc_timeout : ℕ
  pub index_batch_size : ℕ
  pub should_index_txs : Bool
  pub max_concurrent_requests : ℕ
  pub task_timeout : ℕ

unfoldable pub default : BatchIndexConfig
default = record {
  max_retries = 10;
  poll_interval = 10;
  rpc_timeout = 300;
  index_batch_size = 50;
  should_index_txs = false;
  max_concurrent_requests = 10;
  task_timeout = 300;
}

unfoldable pub builder_new : BatchIndexConfigBuilder
builder_new = record {
  max_retries = 10;
  poll_interval = 10;
  rpc_timeout = 300;
  index_batch_size = 50;
  should_index_txs = false;
  max_concurrent_requests = 10;
  task_timeout = 300;
}

unfoldable pub with_max_retries : ℕ → BatchIndexConfigBuilder → BatchIndexConfigBuilder
with_max_retries n b = record b { max_retries = n }

unfoldable pub with_poll_interval : ℕ → BatchIndexConfigBuilder → BatchIndexConfigBuilder
with_poll_interval n b = record b { poll_interval = n }

unfoldable pub with_rpc_timeout : ℕ → BatchIndexConfigBuilder → BatchIndexConfigBuilder
with_rpc_timeout n b = record b { rpc_timeout = n }

unfoldable pub with_index_batch_size : ℕ → BatchIndexConfigBuilder → BatchIndexConfigBuilder
with_index_batch_size n b = record b { index_batch_size = n }

unfoldable pub with_should_index_txs : Bool → BatchIndexConfigBuilder → BatchIndexConfigBuilder
with_should_index_txs t b = record b { should_index_txs = t }

unfoldable pub with_max_concurrent_requests : ℕ → BatchIndexConfigBuilder → BatchIndexConfigBuilder
with_max_concurrent_requests n b = record b { max_concurrent_requests = n }

unfoldable pub with_task_timeout : ℕ → BatchIndexConfigBuilder → BatchIndexConfigBuilder
with_task_timeout n b = record b { task_timeout = n }

unfoldable pub high_throughput : BatchIndexConfigBuilder
unfolding builder_new with_index_batch_size with_max_concurrent_requests with_task_timeout
    with_rpc_timeout
high_throughput = with_rpc_timeout 600 (
    with_task_timeout 600 (with_max_concurrent_requests 50 (with_index_batch_size 200 builder_new)))

unfoldable pub conservative : BatchIndexConfigBuilder
unfolding builder_new with_index_batch_size with_max_concurrent_requests with_task_timeout
    with_max_retries
conservative =
    with_max_retries 5 (
      with_task_timeout 120 (with_max_concurrent_requests 3 (with_index_batch_size 10 builder_new)))

unfoldable pub testing : BatchIndexConfigBuilder
unfolding builder_new with_index_batch_size with_max_concurrent_requests with_task_timeout
    with_max_retries
testing =
    with_max_retries 1
      (with_task_timeout 30 (with_max_concurrent_requests 1 (with_index_batch_size 2 builder_new)))

unfoldable pub build : BatchIndexConfigBuilder → Result BlockchainError BatchIndexConfig
build b = do
  fail_if (b.max_retries == 0)
      (configuration (text "max_retries") (text "Max retries must be greater than 0"))
  fail_if (b.poll_interval == 0)
      (configuration (text "poll_interval") (text "Poll interval must be greater than 0"))
  fail_if (b.rpc_timeout == 0)
      (configuration (text "rpc_timeout") (text "RPC timeout must be greater than 0"))
  fail_if (b.index_batch_size == 0)
      (configuration (text "index_batch_size") (text "Index batch size must be greater than 0"))
  fail_if (b.max_concurrent_requests == 0) (
      configuration (text "max_concurrent_requests")
        (text "Max concurrent requests must be greater than 0"))
  fail_if (b.task_timeout == 0)
      (configuration (text "task_timeout") (text "Task timeout must be greater than 0"))
  ok (record {
    max_retries = b.max_retries;
    poll_interval = b.poll_interval;
    rpc_timeout = b.rpc_timeout;
    index_batch_size = b.index_batch_size;
    should_index_txs = b.should_index_txs;
    max_concurrent_requests = b.max_concurrent_requests;
    task_timeout = b.task_timeout;
  })
