-- ===== src/Rpc.antt =====
-- src/rpc/mod.rs: what the node answers.
pub mod Client
pub mod Calls
use fossil_headers_db.Prelude.{ℕ, Bool, List, Option}
use fossil_headers_db.Result.{Result, ok, err, traverse}
use fossil_headers_db.Text.{Text, text}
use fossil_headers_db.Errors.{BlockchainError, internal}

pub record Transaction : Type 0 where
  pub hash : Text
  pub block_number : Text
  pub transaction_index : Text
  pub value : Text
  pub gas_price : Option Text
  pub gas : Text
  pub from : Option Text
  pub to : Option Text
  pub max_priority_fee_per_gas : Option Text
  pub max_fee_per_gas : Option Text
  pub chain_id : Option Text

pub data BlockTransaction : Type 0 where
  full : Transaction → BlockTransaction
  hash_only : Text → BlockTransaction

pub record BlockHeader : Type 0 where
  pub gas_limit : Text
  pub gas_used : Text
  pub base_fee_per_gas : Option Text
  pub hash : Text
  pub nonce : Option Text
  pub number : Text
  pub receipts_root : Option Text
  pub state_root : Option Text
  pub transactions_root : Option Text
  pub transactions : List BlockTransaction
  pub parent_hash : Option Text
  pub miner : Option Text
  pub logs_bloom : Option Text
  pub difficulty : Option Text
  pub total_difficulty : Option Text
  pub sha3_uncles : Option Text
  pub timestamp : Text
  pub extra_data : Option Text
  pub mix_hash : Option Text
  pub withdrawals_root : Option Text
  pub blob_gas_used : Option Text
  pub excess_blob_gas : Option Text
  pub parent_beacon_block_root : Option Text
  pub requests_hash : Option Text

-- The headers of the command line tool, which have no transactions.
pub record BlockHeaderWithEmptyTransaction : Type 0 where
  pub gas_limit : Text
  pub gas_used : Text
  pub base_fee_per_gas : Option Text
  pub hash : Text
  pub nonce : Option Text
  pub number : Text
  pub receipts_root : Option Text
  pub state_root : Option Text
  pub transactions_root : Option Text
  pub parent_hash : Option Text
  pub miner : Option Text
  pub logs_bloom : Option Text
  pub difficulty : Option Text
  pub total_difficulty : Option Text
  pub sha3_uncles : Option Text
  pub timestamp : Text
  pub extra_data : Option Text
  pub mix_hash : Option Text
  pub withdrawals_root : Option Text
  pub blob_gas_used : Option Text
  pub excess_blob_gas : Option Text
  pub parent_beacon_block_root : Option Text
  pub requests_hash : Option Text

-- `impl TryFrom<BlockTransaction> for Transaction`.
unfoldable pub try_from : BlockTransaction → Result BlockchainError Transaction
try_from (full tx) = ok tx
try_from (hash_only h) = err (internal (text "Cannot convert hash into Transaction"))

unfoldable pub try_convert_full_tx_vector :
    List BlockTransaction → Result BlockchainError (List Transaction)
unfolding traverse try_from
try_convert_full_tx_vector = traverse try_from
