-- ===== src/Batch.antt =====
-- src/indexer/batch_service.rs: `BatchIndexer`, method by method.
pub mod Responses
pub mod Missing
pub mod Complete
pub mod Filling
pub mod Keeping
pub mod Backoff
pub mod Ending
pub mod Batches
pub mod Serving
pub mod Healthy
use fossil_headers_db.Prelude.{
  ℕ, zero, suc, ◌+◌, ◌-◌, ◌*◌, ◌^◌, ◌%◌, ℤ, pos, leb_ℤ, min_ℤ, ◌-ℤ◌, Bool, true, false, List, [],
  ◌∷◌, ◌++◌, map, Option, none, some, length, is_empty, unwrap_or, ◌==◌, ltb, if◌then◌else◌,
}
use fossil_headers_db.Prelude.Machine.{add_i64, sub_i64}
use fossil_headers_db.Result.{Result, ok, err}
use fossil_headers_db.Text.{Text, text, show_i64}
use fossil_headers_db.Errors.{Report, blockchain, sqlx, message, SqlxError, sqlx_message}
use fossil_headers_db.Types.{BlockNumber, from_trusted}
use fossil_headers_db.Config.Batch.{BatchIndexConfig}
use fossil_headers_db.Rpc.{BlockHeader}
use fossil_headers_db.Database.Rows.{HeaderRow, IndexMetadataDto, Tables, stored}
use fossil_headers_db.Database.Action.{
  Action, Env, World, ◌>>=◌, ◌>>◌, pure, raise, lift, map_fault, sleep, sleep_millis,
  load_terminate, query, begin, execute, commit, ask_tasks,
}
use fossil_headers_db.Repositories.Headers.{
  insert_block_header_query, insert_block_header_only_query,
}
use fossil_headers_db.Repositories.Metadata.{
  get_index_metadata, set_is_backfilling, update_metadata, with_backfilling_block,
}
use fossil_headers_db.Blocks.{inclusive, span, sort_headers}
use Responses.{Fetched, TaskResult, fetch_tasks, process_specific_block_responses, chunks}

abbrev pub chunk_size : ℤ
chunk_size = pos 10000

-- The numbers of a list that no row has, in the order of the list.
unfoldable pub unstored : List ℤ → List HeaderRow → List ℤ
unstored [] rows = []
unstored (n ∷ ns) rows = let rest = unstored ns rows in if stored n rows then rest else n ∷ rest

abbrev pub or_missing : Option IndexMetadataDto → Result Report IndexMetadataDto
or_missing none = err (message (text "Error getting index metadata: metadata not found."))
or_missing (some m) = ok m

abbrev pub failed : Text → SqlxError → Report
failed what e = message (what ++ sqlx_message e)

-- `(retry_attempt + 1).pow(2) * 5` in `u8`.
unfoldable pub fetch_retry_backoff : ℕ → ℕ
fetch_retry_backoff retry_attempt = ((retry_attempt + 1) % 256) ^ 2 % 256 * 5 % 256

module _ (env : Env) (config : BatchIndexConfig) where
  unfoldable pub get_current_metadata : Action Report IndexMetadataDto
  get_current_metadata = do metadata ← get_index_metadata env; lift (or_missing metadata)

  -- The query of one chunk.
  unfoldable pub find_chunk : ℤ → ℤ → Action Report (List ℤ)
  find_chunk current_start current_end =
      map_fault
        (failed (
          text "Failed to find missing blocks in range "
          ++ (show_i64 current_start ++ (text "-" ++ (show_i64 current_end ++ text ": ")))))
        (query env (λ t. unstored (inclusive current_start current_end) t.blockheaders))

  -- The loop over the chunks.
  unfoldable pub find_from : ℕ → ℤ → ℤ → Action Report (List ℤ)
  find_from zero current_start end_block = pure []
  find_from (suc fuel) current_start end_block =
      let current_end = min_ℤ (sub_i64 (add_i64 current_start chunk_size) (pos 1)) end_block in
      let next = find_from fuel (add_i64 current_end (pos 1)) end_block in
      if leb_ℤ current_start end_block
      then (do chunk ← find_chunk current_start current_end; rest ← next; pure (chunk ++ rest))
      else pure []

  -- Every round takes a chunk off the range, so as many rounds as there are numbers are enough.
  unfoldable pub find_missing_blocks_with_db : ℤ → ℤ → Action Report (List BlockNumber)
  find_missing_blocks_with_db start_block end_block = do
    missing ← find_from (suc (span (end_block -ℤ start_block))) start_block end_block
    pure (map from_trusted missing)

  abbrev pub find_missing_blocks : ℤ → ℤ → Action Report (List BlockNumber)
  find_missing_blocks = find_missing_blocks_with_db

  unfoldable pub is_backfill_complete : ℤ → ℤ → Action Report Bool
  is_backfill_complete start_block end_block = do
    missing_blocks ← find_missing_blocks start_block end_block
    pure (is_empty missing_blocks)

  unfoldable pub mark_backfill_complete : Action Report (Unit {0})
  mark_backfill_complete = do
    map_fault (failed (text "Failed to begin transaction: ")) (begin env)
    set_is_backfilling env false
    map_fault (failed (text "Failed to commit backfill completion: ")) (commit env)

  unfoldable pub update_backfilling_progress : ℤ → Action Report (Unit {0})
  update_backfilling_progress target_block = do
    map_fault (failed (text "Failed to begin transaction: ")) (begin env)
    map_fault (failed (text "Failed to update backfilling progress: "))
        (execute env (λ now. update_metadata (with_backfilling_block target_block now)))
    map_fault (failed (text "Failed to commit backfilling progress: ")) (commit env)

  unfoldable pub fetch_specific_blocks : List BlockNumber → Action Report Fetched
  fetch_specific_blocks block_numbers = ask_tasks env (λ elapsed fetch.
      process_specific_block_responses (fetch_tasks elapsed fetch block_numbers) block_numbers)

  unfoldable pub try_fetch_missing_blocks :
      List BlockNumber → ℕ → Action Report (Option (List BlockHeader))
  try_fetch_missing_blocks missing_blocks retry_attempt = do
    fetched ← fetch_specific_blocks missing_blocks
    if ltb 0 fetched.error_count
        then (if retry_attempt == config.max_retries - 1
            then raise (message (text "Max retries reached. Stopping batch indexing."))
            else pure none)
        else pure (some fetched.block_headers)

  unfoldable pub store_gap_blocks : List BlockHeader → Action Report (Unit {0})
  store_gap_blocks block_headers = if is_empty block_headers then pure tt else do
    let sorted_headers = sort_headers block_headers
    map_fault sqlx (begin env)
    map_fault blockchain (
        if config.should_index_txs
        then insert_block_header_query env sorted_headers
        else insert_block_header_only_query env sorted_headers)
    map_fault (failed (text "Database transaction commit failed: ")) (commit env)

  unfoldable pub apply_fetch_retry_backoff : ℕ → Action Report (Unit {0})
  apply_fetch_retry_backoff retry_attempt = sleep (fetch_retry_backoff retry_attempt)

  -- The rounds `retry_attempt .. retry_attempt + left`.
  unfoldable pub fill_from : ℕ → ℕ → List BlockNumber → Action Report (Unit {0})
  fill_from zero retry_attempt missing_blocks =
      raise (message (text "Max retries reached filling missing blocks"))
  fill_from (suc left) retry_attempt missing_blocks =
      let next = fill_from left (retry_attempt + 1) missing_blocks in
      do
        stop ← load_terminate env
        if stop then raise (message (text "Max retries reached filling missing blocks")) else do
          fetched ← try_fetch_missing_blocks missing_blocks retry_attempt
          elim fetched [
            | some block_headers ↦ store_gap_blocks block_headers
            | none ↦ do apply_fetch_retry_backoff retry_attempt; next
          ]

  unfoldable pub fill_missing_blocks : List BlockNumber → Action Report (Unit {0})
  fill_missing_blocks = fill_from config.max_retries 0

  -- The loop over the batches.
  unfoldable pub fill_batches : List (List BlockNumber) → Action Report (Unit {0})
  fill_batches [] = pure tt
  fill_batches (batch ∷ batches) =
      let next = fill_batches batches in
      do stop ← load_terminate env; if stop then pure tt else do fill_missing_blocks batch; next

  unfoldable pub process_missing_blocks_in_batches : List BlockNumber → Action Report (Unit {0})
  process_missing_blocks_in_batches missing_blocks =
      fill_batches (chunks (length missing_blocks) config.index_batch_size missing_blocks)

  -- The end of a cycle: whether all is filled now.
  unfoldable pub finish_cycle : ℤ → ℤ → Action Report Bool
  finish_cycle start_block end_block = do
    complete ← is_backfill_complete start_block end_block
    if complete
        then (do update_backfilling_progress start_block; mark_backfill_complete; pure true)
        else pure false

  unfoldable pub process_missing_blocks_cycle : Action Report Bool
  process_missing_blocks_cycle = do
    metadata ← get_current_metadata
    let start_block = metadata.indexing_starting_block_number
    let end_block = unwrap_or metadata.backfilling_block_number metadata.current_latest_block_number
    missing_blocks ← find_missing_blocks start_block end_block
    if is_empty missing_blocks then (do mark_backfill_complete; pure true) else (do
      process_missing_blocks_in_batches missing_blocks
      finish_cycle start_block end_block)

  -- The service's loop on fuel, behind the first read of the metadata; `none` while it runs.
  unfoldable pub index_from : ℕ → World → Option (Result Report (Unit {0}) × World)
  index_from zero w = none
  index_from (suc fuel) w = elim (load_terminate env {E = Report} w).0 [
    | ok true ↦ some (ok tt, (load_terminate env {E = Report} w).1)
    | ok false ↦ elim (process_missing_blocks_cycle (load_terminate env {E = Report} w).1).0 [
      | ok true ↦
          some (ok tt, (process_missing_blocks_cycle (load_terminate env {E = Report} w).1).1)
      | ok false ↦
          index_from fuel
            (sleep_millis {E = Report} config.poll_interval
              (process_missing_blocks_cycle (load_terminate env {E = Report} w).1).1).1
      | err e ↦ some (err e, (process_missing_blocks_cycle (load_terminate env {E = Report} w).1).1)
    ]
    | err e ↦ some (err e, (load_terminate env {E = Report} w).1)
  ]

  unfoldable pub index : ℕ → World → Option (Result Report (Unit {0}) × World)
  index fuel w = elim (get_current_metadata w).0 [
    | ok metadata ↦ index_from fuel (get_current_metadata w).1
    | err e ↦ some (err e, (get_current_metadata w).1)
  ]
