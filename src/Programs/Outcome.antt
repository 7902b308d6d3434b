-- ===== src/Programs/Outcome.antt =====
-- src/indexer/main.rs and src/indexer/lib.rs: when the program of the indexer ends without an error.
use fossil_headers_db.Prelude.{
  ℕ, ◌≡◌, refl, ap, sym, ◌∙◌, ◌⊎◌, ◌↔◌, Bool, Option, none, some, unwrap_or, inl, inr, Option-cases,
}
use fossil_headers_db.Result.{ok, err, Result-cases}
use fossil_headers_db.Text.{Text, text, parse_bool}
use fossil_headers_db.Errors.{BlockchainError}
use fossil_headers_db.Config.Quick.{QuickIndexConfig}
use fossil_headers_db.Config.Batch.{BatchIndexConfig}
use fossil_headers_db.Config.Indexing
use fossil_headers_db.Config.Indexing.{IndexingConfig}
use fossil_headers_db.Config.Validation.{quick_config, batch_config}
use fossil_headers_db.Database.Rows.{IndexMetadataDto}
use fossil_headers_db.Database.Action.{Env, World}
use fossil_headers_db.Initialization.{initialize_index_metadata}
use fossil_headers_db.Initialization.Completion.{
  returned, wait_for_thread_completion, wait_for_thread_completion_iff,
}
use fossil_headers_db.Initialization.Services.{
  TaskEnd, finished, panicked, cancelled, Outcome, Platform, spawned, services,
  setup_database_and_rpc, run_services, start_indexing_services,
}
use fossil_headers_db.Programs.Indexer.{
  Variables, Process, load, offset_of, read_index_transactions, with_offset, configure, main,
  chosen,
}

-- All three services have returned without an error.
abbrev pub AllFinished : Outcome → Type 0
AllFinished o =
    (o.router ≡ finished (ok tt)) × (o.quick ≡ finished (ok tt)) × (o.batch ≡ finished (ok tt))

spawned_done :
    (what : Text) (t : TaskEnd) → spawned what t ≡ returned (ok tt) → t ≡ finished (ok tt)
unfolding spawned
spawned_done what (finished (ok done)) h = refl
spawned_done what (finished (err e)) h = absurd (cc h)
spawned_done what panicked h = absurd (cc h)
spawned_done what cancelled h = absurd (cc h)

services_sound : (o : Outcome) → wait_for_thread_completion (services o) ≡ ok tt → AllFinished o
services_sound o h =
    let (r, (q, (b, e))) = (wait_for_thread_completion_iff (services o)).0 h in
    (spawned_done _ o.router r, spawned_done _ o.quick q, spawned_done _ o.batch b)

services_complete : (o : Outcome) → AllFinished o → wait_for_thread_completion (services o) ≡ ok tt
unfolding spawned
services_complete o (r, q, b) =
    (wait_for_thread_completion_iff (services o)).1 (rw r refl, (rw q refl, (rw b refl, tt)))

module _ (env : Env) (platform : Platform) where
  -- Every step of the start has succeeded, and all services have returned without an error.
  pub record Succeeded (config : IndexingConfig) (w : World) : Type 0 where
    pub metadata : IndexMetadataDto
    pub quick : QuickIndexConfig
    pub batch : BatchIndexConfig
    pub connected : (setup_database_and_rpc env platform config w).0 ≡ ok tt
    pub initialized :
        (initialize_index_metadata env config (setup_database_and_rpc env platform config w).1).0
        ≡ ok metadata
    pub quick_built : quick_config config ≡ ok quick
    pub batch_built : batch_config config ≡ ok batch
    pub all_finished : AllFinished (
        platform.run quick batch
          (initialize_index_metadata env config (setup_database_and_rpc env platform config w).1).1)

  start_sound :
      (config : IndexingConfig) (w : World)
      → (start_indexing_services env platform config w).0 ≡ ok tt
      → Succeeded config w
  unfolding start_indexing_services run_services
  start_sound config w h =
      let m = setup_database_and_rpc env platform config w in
      let n = initialize_index_metadata env config m.1 in
      elim (Result-cases m.0) [
        | inr (e, p) ↦ absurd (cc (rw (p, start_indexing_services) at h))
        | inl (done, p) ↦ elim (Result-cases n.0) [
          | inr (e, q) ↦ absurd (cc (rw (p, q, start_indexing_services) at h))
          | inl (metadata, q) ↦ elim (Result-cases (quick_config config)) [
            | inr (e, r) ↦ absurd (cc (rw (p, q, r, start_indexing_services) at h))
            | inl (quick, r) ↦ elim (Result-cases (batch_config config)) [
              | inr (e, s) ↦ absurd (cc (rw (p, q, r, s, start_indexing_services) at h))
              | inl (batch, s) ↦ record {
                metadata = metadata;
                quick = quick;
                batch = batch;
                connected = p;
                initialized = q;
                quick_built = r;
                batch_built = s;
                all_finished = services_sound (platform.run quick batch n.1) (rw (p, q, r, s) at h);
              }
            ]
          ]
        ]
      ]

  start_complete :
      (config : IndexingConfig) (w : World)
      → Succeeded config w
      → (start_indexing_services env platform config w).0 ≡ ok tt
  unfolding start_indexing_services run_services
  start_complete config w s =
      rw (s.connected, s.initialized, s.quick_built, s.batch_built)
        (services_complete
          (platform.run s.quick s.batch
            (initialize_index_metadata env config
              (setup_database_and_rpc env platform config w).1).1)
          s.all_finished)

-- What the program needs from its environment, and the configuration that it makes of it.
pub record IsUsable (p : Process) (config : IndexingConfig) : Type 0 where
  pub vars : Variables
  pub loaded : load p ≡ ok vars
  pub database : vars.db_connection_string ≡ some config.db_conn_string
  pub node : vars.node_connection_string ≡ some config.node_conn_string
  pub transactions :
      parse_bool (unwrap_or vars.index_transactions (text "false")) ≡ some config.should_index_txs
  pub handled : p.handler ≡ none
  pub others :
      config
      ≡ chosen config.db_conn_string config.node_conn_string config.should_index_txs
          (offset_of vars.start_block_offset)

chosen_built :
    (db node : Text) (txs : Bool) (offset : Option ℕ)
    → Indexing.build (
        with_offset offset (
          Indexing.with_should_index_txs txs (
            Indexing.with_node_conn_string node
              (Indexing.with_db_conn_string db Indexing.builder_new))))
      ≡ ok (chosen db node txs offset)
unfolding with_offset Indexing.build Indexing.builder_new Indexing.with_db_conn_string
    Indexing.with_node_conn_string Indexing.with_should_index_txs
chosen_built db node txs none = refl
chosen_built db node txs (some n) = refl

configure_sound :
    (p : Process) (config : IndexingConfig) → configure p ≡ ok config → IsUsable p config
unfolding configure read_index_transactions
configure_sound p config h = elim (Result-cases (load p)) [
  | inr (e, q) ↦ absurd (cc (rw (q, configure) at h))
  | inl (vars, q) ↦ elim (Option-cases vars.db_connection_string) [
    | inl r ↦ absurd (cc (rw (q, r, configure) at h))
    | inr (db, r) ↦ elim (Option-cases vars.node_connection_string) [
      | inl s ↦ absurd (cc (rw (q, r, s, configure) at h))
      | inr (node, s) ↦
          elim (Option-cases (parse_bool (unwrap_or vars.index_transactions (text "false")))) [
            | inl t ↦ absurd (cc (rw (q, r, s, t, configure) at h))
            | inr (txs, t) ↦ elim (Option-cases p.handler) [
              | inr (refused, u) ↦ absurd (cc (rw (q, r, s, t, u, configure) at h))
              | inl u ↦
                  let built = chosen_built db node txs (offset_of vars.start_block_offset) in
                  let same : chosen db node txs (offset_of vars.start_block_offset) ≡ config =
                    cc (rw (q, r, s, t, u, built) at h) in
                  rw (← same) (record {
                    vars = vars;
                    loaded = q;
                    database = r;
                    node = s;
                    transactions = t;
                    handled = u;
                    others = refl;
                  })
            ]
          ]
    ]
  ]
]

configure_complete :
    (p : Process) (config : IndexingConfig) → IsUsable p config → configure p ≡ ok config
unfolding configure read_index_transactions
configure_complete p config u =
    rw (u.loaded, u.database, u.node, u.transactions, u.handled)
      (chosen_built config.db_conn_string config.node_conn_string config.should_index_txs
          (offset_of u.vars.start_block_offset)
        ∙ ap ok (sym u.others))

-- The program ends without an error exactly where the file `.env` is loaded if IS_DEV asks for it,
-- both connection strings are set, INDEX_TRANSACTIONS is unset or reads `true` or `false`, the signal
-- handler is accepted, and, with the configuration that has these values and the builder's defaults
-- for the others (an unreadable START_BLOCK_OFFSET counts as unset), the connection, the migrations
-- and the setup of the metadata succeed and all three services return without an error.
pub main_iff :
    (env : Env) (platform : Platform) (p : Process) (w : World)
    → ((main env platform p w).0 ≡ ok tt)
      ↔ ((config : IndexingConfig) × IsUsable p config × Succeeded env platform config w)
unfolding main
main_iff env platform p w = (sound (Result-cases (configure p)), complete)
  where
    sound :
        ((config : IndexingConfig) × (configure p ≡ ok config))
          ⊎ ((e : BlockchainError) × (configure p ≡ err e))
        → (main env platform p w).0 ≡ ok tt
        → (config : IndexingConfig) × IsUsable p config × Succeeded env platform config w
    sound (inl (config, q)) h =
        (config, configure_sound p config q, start_sound env platform config w (rw q at h))
    sound (inr (e, q)) h = absurd (cc (rw q at h))

    complete :
        (config : IndexingConfig) × IsUsable p config × Succeeded env platform config w
        → (main env platform p w).0 ≡ ok tt
    complete (config, u, s) =
        rw (configure_complete p config u) (start_complete env platform config w s)
