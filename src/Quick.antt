-- ===== src/Quick.antt =====
-- src/indexer/quick_service.rs: `QuickIndexer`, method by method. The logger writes nothing that
-- the program reads, so its lines are left out; the two queries that only feed it are kept.
pub mod Responses
pub mod Storing
pub mod Transaction
pub mod Attempt
pub mod Invariant
pub mod NoGaps
pub mod Machine
pub mod Refinement
pub mod Ending
pub mod SentHashes
pub mod Hashes
pub mod Fetched
pub mod Healthy
pub mod Advancing
pub mod CatchingUp
use fossil_headers_db.Prelude.{
  ℕ, zero, suc, ◌+◌, ◌*◌, ◌^◌, ℤ, pos, ltb_ℤ, Bool, true, false, not, ◌&&◌, List, [], ◌∷◌, ◌++◌,
  Option, none, some, length, is_empty, ◌==◌, ltb, if◌then◌else◌,
}
use fossil_headers_db.Prelude.Machine.{add_i64, sub_i64}
use fossil_headers_db.Result.{Result, ok, err, is_ok}
use fossil_headers_db.Text.{Text, text, show_i64, show_nat}
use fossil_headers_db.Errors.{
  BlockchainError, Report, blockchain, sqlx, join_error, message, show_report,
}
use fossil_headers_db.Types
use fossil_headers_db.Types.{BlockNumber, from_trusted}
use fossil_headers_db.Config.Quick.{QuickIndexConfig}
use fossil_headers_db.Rpc.{BlockHeader}
use fossil_headers_db.Database.Rows.{HeaderRow, IndexMetadataDto, Tables, between, stored}
use fossil_headers_db.Database.Action.{
  Action, Env, World, Joined, ◌>>=◌, ◌>>◌, pure, raise, lift, attempt, map_fault, sleep,
  load_terminate, query, begin, commit, ask_finalized, ask_blocks,
}
use fossil_headers_db.Repositories.Headers.{
  insert_block_header_query, insert_block_header_only_query,
}
use fossil_headers_db.Repositories.Metadata.{
  get_index_metadata, update_latest_quick_index_block_number_query,
}
use fossil_headers_db.Blocks.{inclusive, expected_count}
use Responses.{join_all, process_rpc_responses, verify_order}

-- `SELECT COUNT(*) FROM blockheaders WHERE number BETWEEN $1 AND $2`.
unfoldable pub count_between : ℤ → ℤ → List HeaderRow → ℕ
count_between a b [] = 0
count_between a b (r ∷ rows) =
    let rest = count_between a b rows in if between a b r.number then suc rest else rest

-- How many of some numbers no row has: the left join of the gap query.
unfoldable pub count_unstored : List ℤ → List HeaderRow → ℕ
unfolding stored
count_unstored [] rows = 0
count_unstored (n ∷ ns) rows =
    let rest = count_unstored ns rows in if stored n rows then rest else suc rest

-- The recursive query `expected_blocks`: it holds its first number whatever the last one is.
unfoldable pub expected_blocks : ℤ → ℤ → List ℤ
unfolding inclusive
expected_blocks first last = if ltb_ℤ last first then first ∷ [] else inclusive first last

-- `SELECT MAX(number) FROM blockheaders`.
unfoldable pub max_number : List HeaderRow → Option ℤ
max_number [] = none
max_number (r ∷ rows) = elim (max_number rows) [
  | none ↦ some r.number
  | some m ↦ some (if ltb_ℤ m r.number then r.number else m)
]

abbrev pub or_missing : Option IndexMetadataDto → Result Report ℤ
or_missing none = err (message (text "Error getting index metadata: metadata not found."))
or_missing (some m) = ok m.current_latest_block_number

abbrev pub gave_up : Report
gave_up = message (text "Max retries reached. Stopping quick indexing.")

module _ (env : Env) (config : QuickIndexConfig) where
  unfoldable pub get_last_indexed_block : Action Report ℤ
  get_last_indexed_block = do metadata ← get_index_metadata env; lift (or_missing metadata)

  unfoldable pub get_latest_finalized_block : Action Report BlockNumber
  get_latest_finalized_block =
      map_fault
        (λ e. message (text "Failed to get latest finalized block: " ++ show_report (blockchain e)))
        (ask_finalized env)

  unfoldable pub has_new_blocks : ℤ → BlockNumber → Bool
  has_new_blocks last_block_number new_latest_block =
      Types.lt (from_trusted last_block_number) new_latest_block

  unfoldable pub calculate_ending_block : ℤ → BlockNumber → ℤ
  unfolding Types.sub_self add_i64
  calculate_ending_block last_block_number new_latest_block =
      let block_difference = Types.sub_self new_latest_block (from_trusted last_block_number) in
      let batch_size = from_trusted (pos config.index_batch_size) in
      if Types.lt batch_size block_difference
      then add_i64 last_block_number (pos config.index_batch_size)
      else new_latest_block.value

  unfoldable pub wait_for_new_blocks : Action Report (Unit {0})
  wait_for_new_blocks = sleep config.poll_interval

  unfoldable pub fetch_block_headers : List ℤ → ℤ → ℤ → Action Report (List BlockHeader)
  fetch_block_headers block_range starting_block ending_block = do
    joined ← ask_blocks env (λ fetch. join_all fetch block_range)
    responses ← lift joined
    lift (process_rpc_responses responses starting_block ending_block)

  unfoldable pub insert_headers : List BlockHeader → Action Report (Unit {0})
  insert_headers headers = map_fault blockchain (
      if config.should_index_txs
      then insert_block_header_query env headers
      else insert_block_header_only_query env headers)

  -- The end of the transaction of `store_block_headers`.
  unfoldable pub finish_store : ℤ → Action Report (Unit {0})
  finish_store ending_block = do
    update_latest_quick_index_block_number_query env ending_block
    map_fault (λ e. message (text "Database transaction commit failed: " ++ show_report (sqlx e)))
        (commit env)

  unfoldable pub store_block_headers : List BlockHeader → ℤ → Action Report (Unit {0})
  store_block_headers block_headers ending_block = do
    sorted_headers ← lift (verify_order block_headers ending_block)
    map_fault sqlx (begin env)
    insert_headers sorted_headers
    finish_store ending_block

  unfoldable pub verify_blocks_stored : ℤ → ℤ → Action Report (Unit {0})
  verify_blocks_stored starting_block ending_block = do
    expected ← lift (expected_count starting_block ending_block)
    actual ←
        map_fault sqlx (query env (λ t. count_between starting_block ending_block t.blockheaders))
    (if not (actual == expected)
        then raise (
            message (
              text "Block storage verification failed: expected "
              ++ (show_nat expected
                  ++ (text " blocks, found "
                      ++ (show_nat actual
                          ++ (text " in database for range "
                              ++ (show_i64 starting_block
                                  ++ (text " to " ++ show_i64 ending_block))))))))
        else pure tt)
    gap_count ← map_fault sqlx (
        query env
          (λ t. count_unstored (expected_blocks starting_block ending_block) t.blockheaders))
    (if ltb 0 gap_count
        then raise (
            message (
              text "Found "
              ++ (show_nat gap_count
                  ++ (text " gaps in block sequence between "
                      ++ (show_i64 starting_block ++ (text " and " ++ show_i64 ending_block))))))
        else pure tt)

  unfoldable pub fetch_and_store_blocks : List ℤ → ℤ → ℤ → Action Report (Unit {0})
  fetch_and_store_blocks block_range starting_block ending_block = do
    block_headers ← fetch_block_headers block_range starting_block ending_block
    store_block_headers block_headers ending_block
    map_fault
        (λ e. message (
          text "Block storage verification failed: "
          ++ (show_report e ++ text ". This indicates a critical database consistency issue.")))
        (verify_blocks_stored starting_block ending_block)

  -- `try_fetch_and_store` passes its arguments on.
  abbrev pub try_fetch_and_store : List ℤ → ℤ → ℤ → Action Report (Unit {0})
  try_fetch_and_store = fetch_and_store_blocks

  -- Two queries whose failures are swallowed.
  unfoldable pub log_indexing_success : Action Report (Unit {0})
  log_indexing_success = do
    total ← attempt (query env (λ t. length t.blockheaders))
    latest ← attempt (query env (λ t. max_number t.blockheaders))
    pure tt

  -- `u64::from(retry_count).pow(2) * 5`.
  unfoldable pub apply_exponential_backoff : ℕ → Action Report (Unit {0})
  apply_exponential_backoff retry_count = sleep (retry_count ^ 2 * 5)

  -- The rounds `attempt .. attempt + left`.
  unfoldable pub retry_from : ℕ → ℕ → List ℤ → ℤ → ℤ → Action Report (Unit {0})
  retry_from zero retry_attempt block_range starting_block ending_block = raise gave_up
  retry_from (suc left) retry_attempt block_range starting_block ending_block =
      let next = retry_from left (retry_attempt + 1) block_range starting_block ending_block in
      do
        stop ← load_terminate env
        if stop then raise gave_up else do
          outcome ← attempt (try_fetch_and_store block_range starting_block ending_block)
          if is_ok outcome
              then log_indexing_success
              else do apply_exponential_backoff retry_attempt; next

  unfoldable pub retry_with_backoff : List ℤ → ℤ → ℤ → Action Report (Unit {0})
  retry_with_backoff = retry_from config.max_retries 0

  unfoldable pub index_block_range : ℤ → ℤ → Action Report (Unit {0})
  index_block_range starting_block ending_block =
      retry_with_backoff (inclusive starting_block ending_block) starting_block ending_block

  unfoldable pub index_new_blocks : ℤ → BlockNumber → Action Report (Unit {0})
  index_new_blocks last_block_number new_latest_block =
      index_block_range (add_i64 last_block_number (pos 1))
        (calculate_ending_block last_block_number new_latest_block)

  unfoldable pub process_indexing_cycle : Action Report (Unit {0})
  process_indexing_cycle = do
    last_block_number ← get_last_indexed_block
    new_latest_block ← get_latest_finalized_block
    if has_new_blocks last_block_number new_latest_block
        then index_new_blocks last_block_number new_latest_block
        else wait_for_new_blocks

  -- The service's loop on fuel: `none` while it runs, and otherwise its result.
  unfoldable pub index : ℕ → World → Option (Result Report (Unit {0}) × World)
  index zero w = none
  index (suc fuel) w = elim (load_terminate env {E = Report} w).0 [
    | ok true ↦ some (ok tt, (load_terminate env {E = Report} w).1)
    | ok false ↦ elim (process_indexing_cycle (load_terminate env {E = Report} w).1).0 [
      | ok done ↦ index fuel (process_indexing_cycle (load_terminate env {E = Report} w).1).1
      | err e ↦ some (err e, (process_indexing_cycle (load_terminate env {E = Report} w).1).1)
    ]
    | err e ↦ some (err e, (load_terminate env {E = Report} w).1)
  ]
