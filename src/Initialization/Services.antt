-- ===== src/Initialization/Services.antt =====
-- src/indexer/lib.rs, `start_indexing_services`: the connection, the migrations, the setup of the
-- metadata, and the three services. What the scheduler makes of the services is a parameter.
use fossil_headers_db.Prelude.{ℕ, ◌+◌, List, [], ◌∷◌, ◌++◌, Option, none, some}
use fossil_headers_db.Result.{Result, ok, err, map_err}
use fossil_headers_db.Text.{Text, text}
use fossil_headers_db.Errors.{
  BlockchainError, database_connection, internal, Report, show_report, SqlxError, from_sqlx,
}
use fossil_headers_db.Config.Quick.{QuickIndexConfig}
use fossil_headers_db.Config.Batch.{BatchIndexConfig}
use fossil_headers_db.Config.Indexing.{IndexingConfig}
use fossil_headers_db.Config.Validation.{quick_config, batch_config}
use fossil_headers_db.Database.Action.{Action, Env, World, ◌>>=◌, ◌>>◌, lift, map_fault, query}
use fossil_headers_db.Initialization.{initialize_index_metadata}
use fossil_headers_db.Initialization.Completion.{
  ServiceEnd, returned, service_panicked, service_cancelled, wait_for_thread_completion,
}

-- How the work inside a spawned task ends.
pub data TaskEnd : Type 0 where
  finished : Result Report (Unit {0}) → TaskEnd
  panicked : TaskEnd
  cancelled : TaskEnd

-- How the three tasks end when they run at once, and the state that they leave.
pub record Outcome : Type 0 where
  pub router : TaskEnd
  pub quick : TaskEnd
  pub batch : TaskEnd
  pub state : World

-- The driver's reading of a connection string, the migrations of the database at a time, and the
-- run of the services with their configurations.
pub record Platform : Type 0 where
  pub parse_options : Text → Result SqlxError (Unit {0})
  pub migrate : ℕ → Option Text
  pub run : QuickIndexConfig → BatchIndexConfig → World → Outcome

-- The body of a spawned task: an error of the service becomes an internal one.
unfoldable pub spawned : Text → TaskEnd → ServiceEnd
spawned what (finished r) = returned (map_err (λ e. internal (what ++ show_report e)) r)
spawned what panicked = service_panicked
spawned what cancelled = service_cancelled

abbrev pub migrated : Option Text → Result BlockchainError (Unit {0})
migrated none = ok tt
migrated (some e) = err (database_connection (text "Failed to run database migrations: " ++ e))

-- The tasks of the three spawn functions.
abbrev pub router_task : TaskEnd → ServiceEnd
router_task = spawned (text "Router service failed: ")

abbrev pub quick_task : TaskEnd → ServiceEnd
quick_task = spawned (text "Quick indexer failed: ")

abbrev pub batch_task : TaskEnd → ServiceEnd
batch_task = spawned (text "Batch indexer failed: ")

-- In the order in which they are awaited.
abbrev pub services : Outcome → List ServiceEnd
services o = router_task o.router ∷ quick_task o.quick ∷ batch_task o.batch ∷ []

module _ (env : Env) (platform : Platform) where
  -- `DbConnection::new`.
  unfoldable pub connect : Text → Action BlockchainError (Unit {0})
  connect db_conn_string = do
    lift (map_err from_sqlx (platform.parse_options db_conn_string))
    map_fault from_sqlx (query env (λ t. tt))

  unfoldable pub run_migrations : Action BlockchainError (Unit {0})
  run_migrations w = (migrated (platform.migrate w.tick), record w { tick = w.tick + 1 })

  unfoldable pub setup_database_and_rpc : IndexingConfig → Action BlockchainError (Unit {0})
  setup_database_and_rpc config = do connect config.db_conn_string; run_migrations

  -- The services are spawned and awaited.
  unfoldable pub run_services :
      QuickIndexConfig → BatchIndexConfig → Action BlockchainError (Unit {0})
  unfolding spawned
  run_services quick batch w =
      let outcome = platform.run quick batch w in
      (wait_for_thread_completion (services outcome), outcome.state)

  unfoldable pub start_indexing_services : IndexingConfig → Action BlockchainError (Unit {0})
  start_indexing_services config = do
    setup_database_and_rpc config
    metadata ← initialize_index_metadata env config
    quick ← lift (quick_config config)
    batch ← lift (batch_config config)
    run_services quick batch
