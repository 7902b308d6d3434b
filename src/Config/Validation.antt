-- ===== src/Config/Validation.antt =====
-- src/indexer/lib.rs: the configurations that the services are spawned with, and when the
-- builders succeed.
use fossil_headers_db.Prelude.{ℕ, ◌<◌, ◌≡◌, refl, arith}
use fossil_headers_db.Result.{Result, ok}
use fossil_headers_db.Errors.{BlockchainError}
use fossil_headers_db.Config.Quick
use fossil_headers_db.Config.Quick.{QuickIndexConfig}
use fossil_headers_db.Config.Batch
use fossil_headers_db.Config.Batch.{BatchIndexConfig}
use fossil_headers_db.Config.Indexing
use fossil_headers_db.Config.Indexing.{IndexingConfig, IndexingConfigBuilder}

-- The builder chain of `spawn_quick_indexer_service`.
unfoldable pub quick_config : IndexingConfig → Result BlockchainError QuickIndexConfig
unfolding Quick.builder_new Quick.with_should_index_txs Quick.with_index_batch_size
    Quick.with_max_retries Quick.with_poll_interval Quick.with_rpc_timeout Quick.build
quick_config c = Quick.build (
    Quick.with_rpc_timeout c.rpc_timeout (
      Quick.with_poll_interval c.poll_interval (
        Quick.with_max_retries c.max_retries (
          Quick.with_index_batch_size c.index_batch_size
            (Quick.with_should_index_txs c.should_index_txs Quick.builder_new)))))

-- The builder chain of `spawn_batch_indexer_service`.
unfoldable pub batch_config : IndexingConfig → Result BlockchainError BatchIndexConfig
unfolding Batch.builder_new Batch.with_should_index_txs Batch.with_index_batch_size
    Batch.with_max_retries Batch.with_poll_interval Batch.with_rpc_timeout
    Batch.with_max_concurrent_requests Batch.with_task_timeout Batch.build
batch_config c = Batch.build (
    Batch.with_task_timeout 300 (
      Batch.with_max_concurrent_requests 10 (
        Batch.with_rpc_timeout c.rpc_timeout (
          Batch.with_poll_interval c.poll_interval (
            Batch.with_max_retries c.max_retries (
              Batch.with_index_batch_size c.index_batch_size
                (Batch.with_should_index_txs c.should_index_txs Batch.builder_new)))))))

-- The values that the builders check.
pub record IsPositive (retries interval timeout size : ℕ) : Type 0 where
  pub retries_pos : 0 < retries
  pub interval_pos : 0 < interval
  pub timeout_pos : 0 < timeout
  pub size_pos : 0 < size

abbrev pub IsUsable : IndexingConfig → Type 0
IsUsable c = IsPositive c.max_retries c.poll_interval c.rpc_timeout c.index_batch_size

build-IsUsable :
    (b : IndexingConfigBuilder) (c : IndexingConfig) → Indexing.build b ≡ ok c → IsUsable c
unfolding Indexing.build
build-IsUsable b c h = ground arith

quick_config-eq :
    (c : IndexingConfig)
    → IsUsable c
    → (q : QuickIndexConfig) × (quick_config c ≡ ok q)
      × (q.max_retries ≡ c.max_retries)
      × (q.poll_interval ≡ c.poll_interval)
      × (q.rpc_timeout ≡ c.rpc_timeout)
      × (q.index_batch_size ≡ c.index_batch_size)
      × (q.should_index_txs ≡ c.should_index_txs)
unfolding quick_config
quick_config-eq c h = (
  record {
    max_retries = c.max_retries;
    poll_interval = c.poll_interval;
    rpc_timeout = c.rpc_timeout;
    index_batch_size = c.index_batch_size;
    should_index_txs = c.should_index_txs;
  },
  ground arith,
  refl,
  refl,
  refl,
  refl,
  refl,
)

batch_config-eq :
    (c : IndexingConfig)
    → IsUsable c
    → (q : BatchIndexConfig) × (batch_config c ≡ ok q)
      × (q.max_retries ≡ c.max_retries)
      × (q.poll_interval ≡ c.poll_interval)
      × (q.rpc_timeout ≡ c.rpc_timeout)
      × (q.index_batch_size ≡ c.index_batch_size)
      × (q.should_index_txs ≡ c.should_index_txs)
      × (q.max_concurrent_requests ≡ 10)
      × (q.task_timeout ≡ 300)
unfolding batch_config
batch_config-eq c h = (
  record {
    max_retries = c.max_retries;
    poll_interval = c.poll_interval;
    rpc_timeout = c.rpc_timeout;
    index_batch_size = c.index_batch_size;
    should_index_txs = c.should_index_txs;
    max_concurrent_requests = 10;
    task_timeout = 300;
  },
  ground arith,
  refl,
  refl,
  refl,
  refl,
  refl,
  refl,
  refl,
)

-- A configuration that its builder accepts has positive retries, poll interval, RPC timeout and batch
-- size, and neither service's configuration is refused when it is spawned from it; both keep the
-- retries, the poll interval, the RPC timeout, the batch size and the choice about transactions, and
-- the batch service has 10 concurrent requests and a task timeout of 300 seconds. The number of
-- retries of the client, rpc_max_retries, is not checked.
pub build-spawns :
    (b : IndexingConfigBuilder) (c : IndexingConfig)
    → Indexing.build b ≡ ok c
    → IsUsable c
      × ((q : QuickIndexConfig) × (quick_config c ≡ ok q)
          × (q.max_retries ≡ c.max_retries)
          × (q.poll_interval ≡ c.poll_interval)
          × (q.rpc_timeout ≡ c.rpc_timeout)
          × (q.index_batch_size ≡ c.index_batch_size)
          × (q.should_index_txs ≡ c.should_index_txs))
      × ((q : BatchIndexConfig) × (batch_config c ≡ ok q)
          × (q.max_retries ≡ c.max_retries)
          × (q.poll_interval ≡ c.poll_interval)
          × (q.rpc_timeout ≡ c.rpc_timeout)
          × (q.index_batch_size ≡ c.index_batch_size)
          × (q.should_index_txs ≡ c.should_index_txs)
          × (q.max_concurrent_requests ≡ 10)
          × (q.task_timeout ≡ 300))
build-spawns b c h =
    let usable : IsUsable c = build-IsUsable b c h in
    (usable, quick_config-eq c usable, batch_config-eq c usable)
