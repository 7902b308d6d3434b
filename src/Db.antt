-- ===== src/Db.antt =====
-- src/db/mod.rs: the shared pool, the retries, and the queries of the command line tool. The logger
-- is left out. `get_db_pool` keeps the pool that it has made; at most one is made.
pub mod Retries
pub mod Gaps
pub mod Pool
pub mod Chunks
pub mod Grouping
pub mod Islands
use fossil_headers_db.Prelude.{
  ℕ, zero, suc, ◌+◌, ◌^◌, ◌%◌, ℤ, pos, negsuc, leb_ℤ, eqb_ℤ, min_ℤ, ◌-ℤ◌, Bool, true, false, not,
  ◌&&◌, ◌||◌, List, [], ◌∷◌, ◌++◌, map, Option, none, some, unwrap_or, ltb, ◌==◌, if◌then◌else◌,
}
use fossil_headers_db.Prelude.Machine.{add_i64, sub_i64}
use fossil_headers_db.Result.{Result, ok, err}
use fossil_headers_db.Text.{Text, text, show_i64}
use fossil_headers_db.Errors.{
  BlockchainError, database_connection_failed, rpc_connection_failed, rpc_timed_out, network_error,
  configuration, database_connection, database_query, database_transaction, SqlxError, sqlx_message,
  from_sqlx,
}
use fossil_headers_db.Types.{BlockNumber, from_trusted}
use fossil_headers_db.Utils.{convert_hex_string_to_i64}
use fossil_headers_db.Rpc.{BlockHeaderWithEmptyTransaction}
use fossil_headers_db.Database.Rows.{HeaderRow, Tables, between, stored}
use fossil_headers_db.Database.Sql.{limit_one, grouped_ranges}
use fossil_headers_db.Database.Action.{
  Action, Env, World, Connection, unset, malformed, well_formed, ◌>>=◌, ◌>>◌, pure, lift, map_fault,
  query, sleep, begin, execute_counted, commit,
}
use fossil_headers_db.Blocks.{inclusive, span}
use fossil_headers_db.Quick.{expected_blocks, max_number}
use fossil_headers_db.Batch.{unstored}

-- The numbers of the recursive query for which no row of the range is found.
unfoldable pub absent_of : ℤ → ℤ → List ℤ → List HeaderRow → List ℤ
absent_of a b [] rows = []
absent_of a b (n ∷ ns) rows =
    let rest = absent_of a b ns rows in if between a b n && stored n rows then rest else n ∷ rest

abbrev pub absent : ℤ → ℤ → List HeaderRow → List ℤ
absent a b rows = absent_of a b (expected_blocks a b) rows

-- `result.map(|r| BlockNumber::from_trusted(r.0))`.
abbrev pub block_of : Option ℤ → Option BlockNumber
block_of none = none
block_of (some n) = some (from_trusted n)

abbrev pub range_of : ℤ × ℤ → BlockNumber × BlockNumber
range_of (first, last) = (from_trusted first, from_trusted last)

abbrev is_null : Option Text → Bool
is_null none = true
is_null (some t) = false

-- The condition of `find_null_data`; the columns of integers cannot be null.
unfoldable pub has_null : HeaderRow → Bool
has_null r =
    is_null r.block_hash
    || (is_null r.nonce
        || (is_null r.transaction_root
            || (is_null r.receipts_root
                || (is_null r.state_root
                    || (is_null r.parent_hash
                        || (is_null r.logs_bloom
                            || (is_null r.difficulty
                                || (is_null r.total_difficulty
                                    || (is_null r.timestamp
                                        || (is_null r.extra_data || is_null r.mix_hash))))))))))

-- `ORDER BY number ASC`.
unfoldable pub insert_number : ℤ → List ℤ → List ℤ
insert_number n [] = n ∷ []
insert_number n (m ∷ ms) =
    let rest = insert_number n ms in if leb_ℤ n m then n ∷ m ∷ ms else m ∷ rest

unfoldable pub null_numbers : ℤ → ℤ → List HeaderRow → List ℤ
unfolding insert_number has_null
null_numbers a b [] = []
null_numbers a b (r ∷ rows) =
    let rest = null_numbers a b rows in
    if has_null r && between a b r.number then insert_number r.number rest else rest

-- The upsert of `insert_block_header`, which leaves the column `requests_hash` alone.
unfoldable pub upsert_columns : HeaderRow → List HeaderRow → List HeaderRow
upsert_columns r [] = r ∷ []
upsert_columns r (s ∷ rows) =
    if eqb_ℤ s.number r.number
    then record r { requests_hash = s.requests_hash } ∷ rows
    else s ∷ upsert_columns r rows

abbrev pub put_row : HeaderRow → ℕ → Tables → ℕ × Tables
put_row r now t = (1, record t { blockheaders = upsert_columns r t.blockheaders })

-- The values that `insert_block_header` binds.
unfoldable pub bound_row : BlockHeaderWithEmptyTransaction → ℤ → ℤ → ℤ → ℤ → HeaderRow
bound_row h number gas_limit gas_used timestamp = record {
  block_hash = some h.hash;
  number = number;
  gas_limit = gas_limit;
  gas_used = gas_used;
  base_fee_per_gas = h.base_fee_per_gas;
  nonce = h.nonce;
  transaction_root = h.transactions_root;
  receipts_root = h.receipts_root;
  state_root = h.state_root;
  parent_hash = h.parent_hash;
  miner = h.miner;
  logs_bloom = h.logs_bloom;
  difficulty = h.difficulty;
  total_difficulty = h.total_difficulty;
  sha3_uncles = h.sha3_uncles;
  timestamp = some (show_i64 timestamp);
  extra_data = h.extra_data;
  mix_hash = h.mix_hash;
  withdrawals_root = h.withdrawals_root;
  blob_gas_used = h.blob_gas_used;
  excess_blob_gas = h.excess_blob_gas;
  parent_beacon_block_root = h.parent_beacon_block_root;
  requests_hash = none;
}

abbrev pub query_failed : Text → SqlxError → BlockchainError
query_failed what e = database_query (what ++ sqlx_message e)

unfoldable pub is_transient_error : BlockchainError → Bool
is_transient_error (database_connection_failed m) = true
is_transient_error (rpc_connection_failed m) = true
is_transient_error (rpc_timed_out s) = true
is_transient_error (network_error m) = true
is_transient_error _ = false

-- The loop of `retry_async`, from the state where `attempts` have failed. The round after
-- `max_retries` failures returns, so `max_retries + 1` rounds are enough.
module _ {A : Type 0} (operation : Action BlockchainError A) (max_retries : ℕ) where
  unfoldable pub retry_loop : ℕ → ℕ → BlockchainError → Action BlockchainError A
  retry_loop zero attempts last w = (err last, w)
  retry_loop (suc fuel) attempts last w = elim (operation w).0 [
    | ok result ↦ (ok result, (operation w).1)
    | err e ↦
        if ltb max_retries (attempts + 1) || not (is_transient_error e)
        then (err e, (operation w).1)
        else (sleep (2 ^ (attempts + 1) % 2 ^ 64) >> retry_loop fuel (attempts + 1) e)
            (operation w).1
  ]

  unfoldable pub retry_async : Action BlockchainError A
  unfolding retry_loop
  retry_async = retry_loop (suc max_retries) 0 (database_connection [])

module _ (env : Env) where
  abbrev parse_connection : Connection → Result BlockchainError (Unit {0})
  parse_connection unset =
      err (configuration (text "DB_CONNECTION_STRING") (text "Environment variable must be set"))
  parse_connection (malformed e) =
      err (configuration (text "DB_CONNECTION_STRING") (text "Invalid connection string: " ++ e))
  parse_connection well_formed = ok tt

  -- Making the pool opens a connection, which may fail as a statement may.
  unfoldable pub connect : Action BlockchainError (Unit {0})
  connect = do
    lift (parse_connection env.connection)
    map_fault
        (λ e. database_connection (text "Failed to create connection pool: " ++ sqlx_message e))
        (query env (λ t. tt))
    (λ w. (ok tt, record w { connected = true }))

  unfoldable pub get_db_pool : Action BlockchainError (Unit {0})
  get_db_pool w = if w.connected then (ok tt, w) else connect w

  unfoldable pub check_db_connection : Action BlockchainError (Unit {0})
  check_db_connection = do
    get_db_pool
    map_fault (query_failed (text "Connection check failed: ")) (query env (λ t. tt))

  -- The attempt that `get_last_stored_blocknumber` retries.
  unfoldable pub read_last_stored : Action BlockchainError BlockNumber
  read_last_stored = do
    get_db_pool
    last ←
        map_fault (query_failed (text "Failed to get last stored block number: "))
          (query env (λ t. unwrap_or (max_number t.blockheaders) (negsuc 0)))
    pure (from_trusted last)

  unfoldable pub get_last_stored_blocknumber : Action BlockchainError BlockNumber
  get_last_stored_blocknumber = retry_async read_last_stored 3

  unfoldable pub find_first_gap :
      BlockNumber → BlockNumber → Action BlockchainError (Option BlockNumber)
  find_first_gap start end_block = do
    get_db_pool
    found ← map_fault (query_failed (text "Failed to find first gap: ")) (λ w.
        query env
          (λ t. limit_one (env.position w.tick) (absent start.value end_block.value t.blockheaders))
          w)
    pure (block_of found)

  unfoldable pub find_missing_block_ranges :
      BlockNumber → BlockNumber → Action BlockchainError (List (BlockNumber × BlockNumber))
  find_missing_block_ranges start end_block = do
    get_db_pool
    ranges ←
        map_fault (query_failed (text "Failed to find missing block ranges: "))
          (query env (λ t. grouped_ranges (absent start.value end_block.value t.blockheaders)))
    pure (map range_of ranges)

  unfoldable pub find_missing_blocks_in_range :
      BlockNumber → BlockNumber → Action BlockchainError (List BlockNumber)
  find_missing_blocks_in_range start end_block = do
    get_db_pool
    missing ←
        map_fault (query_failed (text "Failed to find missing blocks in range: "))
          (query env (λ t. unstored (inclusive start.value end_block.value) t.blockheaders))
    pure (map from_trusted missing)

  -- The loop of `find_missing_blocks_chunked`.
  unfoldable pub find_chunks : ℕ → ℤ → ℤ → ℤ → Action BlockchainError (List BlockNumber)
  find_chunks zero current_start end_block chunk_size = pure []
  find_chunks (suc fuel) current_start end_block chunk_size =
      let current_end = min_ℤ (sub_i64 (add_i64 current_start chunk_size) (pos 1)) end_block in
      let next = find_chunks fuel (add_i64 current_end (pos 1)) end_block chunk_size in
      if leb_ℤ current_start end_block
      then (do
        chunk_missing ←
            find_missing_blocks_in_range (from_trusted current_start) (from_trusted current_end)
        rest ← next
        pure (chunk_missing ++ rest))
      else pure []

  -- With a positive chunk size every round takes a number off the range at least, so as many rounds
  -- as there are numbers are enough; with another one the source does not return.
  unfoldable pub find_missing_blocks_chunked :
      BlockNumber → BlockNumber → ℤ → Action BlockchainError (List BlockNumber)
  find_missing_blocks_chunked start end_block chunk_size =
      find_chunks (suc (span (end_block.value -ℤ start.value))) start.value end_block.value
        chunk_size

  unfoldable pub find_null_data :
      BlockNumber → BlockNumber → Action BlockchainError (List BlockNumber)
  find_null_data start end_block = do
    get_db_pool
    numbers ←
        map_fault (query_failed (text "Failed to find any null data: "))
          (query env (λ t. null_numbers start.value end_block.value t.blockheaders))
    pure (map from_trusted numbers)

  unfoldable pub insert_block_header : BlockHeaderWithEmptyTransaction → Action BlockchainError Bool
  insert_block_header h = do
    number ← lift (convert_hex_string_to_i64 h.number)
    gas_limit ← lift (convert_hex_string_to_i64 h.gas_limit)
    gas_used ← lift (convert_hex_string_to_i64 h.gas_used)
    timestamp ← lift (convert_hex_string_to_i64 h.timestamp)
    affected ←
        map_fault
          (query_failed
            (text "Failed to insert block header for block number " ++ (h.number ++ text ": ")))
          (execute_counted env (put_row (bound_row h number gas_limit gas_used timestamp)))
    pure (not (affected == 0))

  unfoldable pub write_blockheader :
      BlockHeaderWithEmptyTransaction → Action BlockchainError (Unit {0})
  write_blockheader h = do
    get_db_pool
    map_fault from_sqlx (begin env)
    block_inserted ← insert_block_header h
    if not block_inserted
        then pure tt
        else map_fault
            (λ e. database_transaction (text "Failed to commit transaction: " ++ sqlx_message e))
            (commit env)
