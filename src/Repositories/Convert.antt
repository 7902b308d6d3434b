-- ===== src/Repositories/Convert.antt =====
-- src/repositories/block_header.rs: from the node's answers to rows.
use fossil_headers_db.Prelude.{ℤ, negsuc, List, [], ◌∷◌, ◌++◌, unwrap_or}
use fossil_headers_db.Result.{Result, ok, ok_or, or_else, traverse, ◌>>=◌}
use fossil_headers_db.Text.{Text, text, show_i64, parse_i64}
use fossil_headers_db.Errors.{BlockchainError, block_validation}
use fossil_headers_db.Utils.{convert_hex_string_to_i64, convert_hex_string_to_i32}
use fossil_headers_db.Rpc.{Transaction, BlockHeader, try_convert_full_tx_vector}
use fossil_headers_db.Database.Rows.{BlockHeaderDto, TransactionDto}

-- The number that an error names: the header's number read as a decimal, and -1 where that fails.
unfoldable pub error_number : BlockHeader → ℤ
error_number header = or_else (parse_i64 header.number) (negsuc 0)

-- The rest of the conversion, once its seven fields are there.
unfoldable pub dto_of : BlockHeader → ℤ → ℤ → ℤ → ℤ → Text → Text → Text → BlockHeaderDto
dto_of header block_number gas_limit gas_used block_timestamp receipts_root state_root
      transaction_root =
    record {
      gas_limit = gas_limit;
      gas_used = gas_used;
      base_fee_per_gas = header.base_fee_per_gas;
      block_hash = header.hash;
      nonce = header.nonce;
      number = block_number;
      receipts_root = receipts_root;
      state_root = state_root;
      transaction_root = transaction_root;
      parent_hash = header.parent_hash;
      miner = header.miner;
      logs_bloom = header.logs_bloom;
      difficulty = header.difficulty;
      total_difficulty = header.total_difficulty;
      sha3_uncles = header.sha3_uncles;
      timestamp = show_i64 block_timestamp;
      extra_data = header.extra_data;
      mix_hash = header.mix_hash;
      withdrawals_root = header.withdrawals_root;
      blob_gas_used = header.blob_gas_used;
      excess_blob_gas = header.excess_blob_gas;
      parent_beacon_block_root = header.parent_beacon_block_root;
      requests_hash = header.requests_hash;
    }

unfoldable pub convert_rpc_blockheader_to_dto : BlockHeader → Result BlockchainError BlockHeaderDto
unfolding dto_of
convert_rpc_blockheader_to_dto header = do
  block_number ← convert_hex_string_to_i64 header.number
  gas_limit ← convert_hex_string_to_i64 header.gas_limit
  gas_used ← convert_hex_string_to_i64 header.gas_used
  block_timestamp ← convert_hex_string_to_i64 header.timestamp
  receipts_root ←
      ok_or header.receipts_root
        (block_validation (error_number header) (text "receipt root should not be empty"))
  state_root ←
      ok_or header.state_root
        (block_validation (error_number header) (text "state root should not be empty"))
  transaction_root ←
      ok_or header.transactions_root
        (block_validation (error_number header) (text "transactions root should not be empty"))
  ok (
      dto_of header block_number gas_limit gas_used block_timestamp receipts_root state_root
        transaction_root)

unfoldable pub convert_rpc_transaction_to_dto : Transaction → Result BlockchainError TransactionDto
convert_rpc_transaction_to_dto tx = do
  block_number ← convert_hex_string_to_i64 tx.block_number
  transaction_index ← convert_hex_string_to_i32 tx.transaction_index
  ok (record {
    transaction_hash = tx.hash;
    block_number = block_number;
    transaction_index = transaction_index;
    value = tx.value;
    gas_price = unwrap_or tx.gas_price (text "0");
    gas = tx.gas;
    from_addr = tx.from;
    to_addr = tx.to;
    max_priority_fee_per_gas = unwrap_or tx.max_priority_fee_per_gas (text "0");
    max_fee_per_gas = unwrap_or tx.max_fee_per_gas (text "0");
    chain_id = tx.chain_id;
  })

-- The loop of `insert_block_header_only_query`.
unfoldable pub format_headers : List BlockHeader → Result BlockchainError (List BlockHeaderDto)
unfolding traverse
format_headers = traverse convert_rpc_blockheader_to_dto

-- The loop of `insert_block_header_query`, which collects the transactions too.
unfoldable pub format_with_transactions :
    List BlockHeader → Result BlockchainError (List BlockHeaderDto × List Transaction)
format_with_transactions [] = ok ([], [])
format_with_transactions (header ∷ headers) = do
  dto ← convert_rpc_blockheader_to_dto header
  txs ← try_convert_full_tx_vector header.transactions
  rest ← format_with_transactions headers
  ok (dto ∷ rest.0, txs ++ rest.1)

-- The loop of `insert_block_txs_query`.
unfoldable pub format_transactions : List Transaction → Result BlockchainError (List TransactionDto)
unfolding traverse
format_transactions = traverse convert_rpc_transaction_to_dto
