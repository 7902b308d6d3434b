-- ===== src/Tests.antt =====
-- Concrete inputs for the runs and the theorems: a node, a database, two configurations.
pub mod Services
pub mod Parts
pub mod Tool
pub mod Node
pub mod Healthy
pub mod Program
use fossil_headers_db.Prelude.{
  ℕ, suc, ◌+◌, leb, ℤ, pos, pos_part, neg_part, ◌≤ℤ◌, ◌≡◌, refl, Bool, true, false, List, [], ◌∷◌,
  ◌++◌, Option, none, some, arith,
}
use fossil_headers_db.Result.{Result, ok, err}
use fossil_headers_db.Text.{Text, text, hex_i64}
use fossil_headers_db.Errors.{Report}
use fossil_headers_db.Types.{BlockNumber, from_trusted}
use fossil_headers_db.Config.Quick.{QuickIndexConfig}
use fossil_headers_db.Config.Batch.{BatchIndexConfig}
use fossil_headers_db.Rpc.{BlockHeader, BlockHeaderWithEmptyTransaction}
use fossil_headers_db.Database.Rows.{HeaderRow, IndexMetadataDto, Tables, stored}
use fossil_headers_db.Database.Action.{Env, World, Joined, joined, well_formed}
use fossil_headers_db.Repositories.Metadata.{first_row}
use fossil_headers_db.Quick.{process_indexing_cycle, index}
use fossil_headers_db.Prelude.Machine.{add_i64, sub_i64, wrap_i64, to_bits, of_bits}
use fossil_headers_db.Result.{traverse}
use fossil_headers_db.Text.{
  trim_0x, digits, from_digit, from_str_radix, scan_signed, scan, to_digit, show_i64, show_nat,
}
use fossil_headers_db.Types.{sub_self}
use fossil_headers_db.Utils.{convert_hex_string_to_i64}
use fossil_headers_db.Database.Rows.{upsert_header, upsert_headers}
use fossil_headers_db.Database.Action.{
  load_terminate, query, ask_finalized, ask_blocks, execute, begin, commit, sleep, sleep_millis,
}
use fossil_headers_db.Repositories.Convert.{format_headers, convert_rpc_blockheader_to_dto, dto_of}
use fossil_headers_db.Repositories.Headers.{put_headers, insert_block_header_only_query}
use fossil_headers_db.Repositories.Metadata.{
  get_index_metadata, found, update_metadata, update_latest_quick_index_block_number_query,
}
use fossil_headers_db.Repositories.Lookup.{block_key}
use fossil_headers_db.Blocks.{inclusive, numbered, expected_count, sort_headers, insert_header}
use fossil_headers_db.Quick.{
  get_last_indexed_block, get_latest_finalized_block, has_new_blocks, index_new_blocks,
  calculate_ending_block, index_block_range, retry_with_backoff, retry_from, fetch_and_store_blocks,
  fetch_block_headers, store_block_headers, insert_headers, finish_store, verify_blocks_stored,
  count_between, count_unstored, expected_blocks, log_indexing_success, max_number,
  wait_for_new_blocks,
}
use fossil_headers_db.Quick.Responses.{
  join_all, process_rpc_responses, collect, verify_order, first_number, last_number, check_sequence,
}
use fossil_headers_db.Quick.Invariant.{NoGaps, ReportsValid}
use fossil_headers_db.Quick.NoGaps.{process_indexing_cycle-NoGaps, index-NoGaps}

abbrev pub header_at : Text → BlockHeader
header_at number = record {
  gas_limit = text "0x1c9c380";
  gas_used = text "0x5208";
  base_fee_per_gas = none;
  hash = text "0xab";
  nonce = none;
  number = number;
  receipts_root = some (text "0x01");
  state_root = some (text "0x02");
  transactions_root = some (text "0x03");
  transactions = [];
  parent_hash = none;
  miner = none;
  logs_bloom = none;
  difficulty = none;
  total_difficulty = none;
  sha3_uncles = none;
  timestamp = text "0x64";
  extra_data = none;
  mix_hash = none;
  withdrawals_root = none;
  blob_gas_used = none;
  excess_blob_gas = none;
  parent_beacon_block_root = none;
  requests_hash = none;
}

abbrev pub empty_header_at : Text → BlockHeaderWithEmptyTransaction
empty_header_at number = record {
  gas_limit = text "0x1c9c380";
  gas_used = text "0x5208";
  base_fee_per_gas = none;
  hash = text "0xab";
  nonce = none;
  number = number;
  receipts_root = some (text "0x01");
  state_root = some (text "0x02");
  transactions_root = some (text "0x03");
  parent_hash = none;
  miner = none;
  logs_bloom = none;
  difficulty = none;
  total_difficulty = none;
  sha3_uncles = none;
  timestamp = text "0x64";
  extra_data = none;
  mix_hash = none;
  withdrawals_root = none;
  blob_gas_used = none;
  excess_blob_gas = none;
  parent_beacon_block_root = none;
  requests_hash = none;
}

abbrev pub row_at : ℤ → HeaderRow
row_at number = record {
  gas_limit = pos 30000000;
  gas_used = pos 21000;
  base_fee_per_gas = none;
  block_hash = some (text "0xab");
  nonce = none;
  number = number;
  receipts_root = some (text "0x01");
  state_root = some (text "0x02");
  transaction_root = some (text "0x03");
  parent_hash = none;
  miner = none;
  logs_bloom = none;
  difficulty = none;
  total_difficulty = none;
  sha3_uncles = none;
  timestamp = some (text "100");
  extra_data = none;
  mix_hash = none;
  withdrawals_root = none;
  blob_gas_used = none;
  excess_blob_gas = none;
  parent_beacon_block_root = none;
  requests_hash = none;
}

-- A node whose latest finalized block is 8 and that has every block, beside a database that never
-- refuses a statement; the service is asked to stop at its twentieth question.
abbrev pub healthy : Env
healthy = record {
  finalized = λ t. ok (from_trusted (pos 8));
  fetch = λ t b. joined (ok (header_at (text "0x" ++ hex_i64 b.value)));
  elapsed = λ t b. false;
  fault = λ t. none;
  terminated = λ t. leb 20 t;
  now = λ t. t;
  next_id = λ t. pos 1;
  header = λ t b. ok (empty_header_at (text "0x" ++ hex_i64 b.value));
  cut = λ t. false;
  connection = well_formed;
  position = λ t. 0;
}

abbrev pub quick : QuickIndexConfig
quick = record {
  max_retries = 3;
  poll_interval = 1;
  rpc_timeout = 300;
  index_batch_size = 2;
  should_index_txs = false;
}

abbrev pub metadata : IndexMetadataDto
metadata = record {
  id = pos 1;
  current_latest_block_number = pos 5;
  indexing_starting_block_number = pos 2;
  is_backfilling = true;
  updated_at = 0;
  backfilling_block_number = none;
}

-- Block 5 is stored, and the metadata says so.
abbrev pub tables : Tables
tables = record {
  blockheaders = row_at (pos 5) ∷ [];
  transactions = [];
  index_metadata = metadata ∷ [];
}

abbrev pub world : World
world = record { tables = tables; pending = tables; tick = 0; slept = []; connected = false }

abbrev pub batch : BatchIndexConfig
batch = record {
  max_retries = 3;
  poll_interval = 1;
  rpc_timeout = 300;
  index_batch_size = 2;
  should_index_txs = false;
  max_concurrent_requests = 10;
  task_timeout = 300;
}
