-- ===== src/Config/Quick.antt =====
-- src/indexer/quick_service.rs: `QuickIndexConfig` and its builder.
use fossil_headers_db.Prelude.{ℕ, Bool, false, ◌==◌}
use fossil_headers_db.Result.{Result, ok, ◌>>◌, fail_if}
use fossil_headers_db.Text.{text}
use fossil_headers_db.Errors.{BlockchainError, configuration}

pub record QuickIndexConfig : Type 0 where
  pub max_retries : ℕ  -- u8
  pub poll_interval : ℕ  -- u32
  pub rpc_timeout : ℕ  -- u32
  pub index_batch_size : ℕ  -- u32
  pub should_index_txs : Bool

-- The fields of the builder are those of the configuration.
pub record QuickIndexConfigBuilder : Type 0 where
  pub max_retries : ℕ
  pub poll_interval : ℕ
  pub rpc_timeout : ℕ
  pub index_batch_size : ℕ
  pub should_index_txs : Bool

unfoldable pub default : QuickIndexConfig
default = record {
  max_retries = 10;
  poll_interval = 10;
  rpc_timeout = 300;
  index_batch_size = 20;
  should_index_txs = false;
}

unfoldable pub builder_new : QuickIndexConfigBuilder
builder_new = record {
  max_retries = 10;
  poll_interval = 10;
  rpc_timeout = 300;
  index_batch_size = 20;
  should_index_txs = false;
}

unfoldable pub with_max_retries : ℕ → QuickIndexConfigBuilder → QuickIndexConfigBuilder
with_max_retries n b = record b { max_retries = n }

unfoldable pub with_poll_interval : ℕ → QuickIndexConfigBuilder → QuickIndexConfigBuilder
with_poll_interval n b = record b { poll_interval = n }

unfoldable pub with_rpc_timeout : ℕ → QuickIndexConfigBuilder → QuickIndexConfigBuilder
with_rpc_timeout n b = record b { rpc_timeout = n }

unfoldable pub with_index_batch_size : ℕ → QuickIndexConfigBuilder → QuickIndexConfigBuilder
with_index_batch_size n b = record b { index_batch_size = n }

unfoldable pub with_should_index_txs : Bool → QuickIndexConfigBuilder → QuickIndexConfigBuilder
with_should_index_txs t b = record b { should_index_txs = t }

unfoldable pub fast_polling : QuickIndexConfigBuilder
unfolding builder_new with_poll_interval with_index_batch_size with_rpc_timeout
fast_polling = with_rpc_timeout 120 (with_index_batch_size 50 (with_poll_interval 2 builder_new))

unfoldable pub slow_polling : QuickIndexConfigBuilder
unfolding builder_new with_poll_interval with_index_batch_size with_max_retries
slow_polling = with_max_retries 5 (with_index_batch_size 5 (with_poll_interval 60 builder_new))

unfoldable pub testing : QuickIndexConfigBuilder
unfolding builder_new with_poll_interval with_index_batch_size with_rpc_timeout with_max_retries
testing =
    with_max_retries 1
      (with_rpc_timeout 30 (with_index_batch_size 1 (with_poll_interval 1 builder_new)))

unfoldable pub build : QuickIndexConfigBuilder → Result BlockchainError QuickIndexConfig
build b = do
  fail_if (b.max_retries == 0)
      (configuration (text "max_retries") (text "Max retries must be greater than 0"))
  fail_if (b.poll_interval == 0)
      (configuration (text "poll_interval") (text "Poll interval must be greater than 0"))
  fail_if (b.rpc_timeout == 0)
      (configuration (text "rpc_timeout") (text "RPC timeout must be greater than 0"))
  fail_if (b.index_batch_size == 0)
      (configuration (text "index_batch_size") (text "Index batch size must be greater than 0"))
  ok (record {
    max_retries = b.max_retries;
    poll_interval = b.poll_interval;
    rpc_timeout = b.rpc_timeout;
    index_batch_size = b.index_batch_size;
    should_index_txs = b.should_index_txs;
  })
