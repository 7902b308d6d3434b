-- ===== src/Database/Rows.antt =====
-- src/repositories/block_header.rs and src/repositories/index_metadata.rs: the rows; and the three
-- tables of migrations/, a table as the list of its rows.
use fossil_headers_db.Prelude.{
  ℕ, ℤ, eqb_ℤ, leb_ℤ, Bool, false, ◌&&◌, ◌||◌, List, [], ◌∷◌, Option, some, if◌then◌else◌,
}
use fossil_headers_db.Text.{Text, text_eq}

pub record BlockHeaderDto : Type 0 where
  pub gas_limit : ℤ
  pub gas_used : ℤ
  pub base_fee_per_gas : Option Text
  pub block_hash : Text
  pub nonce : Option Text
  pub number : ℤ
  pub receipts_root : Text
  pub state_root : Text
  pub transaction_root : Text
  pub parent_hash : Option Text
  pub miner : Option Text
  pub logs_bloom : Option Text
  pub difficulty : Option Text
  pub total_difficulty : Option Text
  pub sha3_uncles : Option Text
  pub timestamp : Text
  pub extra_data : Option Text
  pub mix_hash : Option Text
  pub withdrawals_root : Option Text
  pub blob_gas_used : Option Text
  pub excess_blob_gas : Option Text
  pub parent_beacon_block_root : Option Text
  pub requests_hash : Option Text

-- A row of the table `blockheaders`, with its columns that may be null.
pub record HeaderRow : Type 0 where
  pub block_hash : Option Text
  pub number : ℤ
  pub gas_limit : ℤ
  pub gas_used : ℤ
  pub base_fee_per_gas : Option Text
  pub nonce : Option Text
  pub transaction_root : Option Text
  pub receipts_root : Option Text
  pub state_root : Option Text
  pub parent_hash : Option Text
  pub miner : Option Text
  pub logs_bloom : Option Text
  pub difficulty : Option Text
  pub total_difficulty : Option Text
  pub sha3_uncles : Option Text
  pub timestamp : Option Text
  pub extra_data : Option Text
  pub mix_hash : Option Text
  pub withdrawals_root : Option Text
  pub blob_gas_used : Option Text
  pub excess_blob_gas : Option Text
  pub parent_beacon_block_root : Option Text
  pub requests_hash : Option Text

-- The values that are bound for a header.
unfoldable pub row_of : BlockHeaderDto → HeaderRow
row_of d = record {
  block_hash = some d.block_hash;
  number = d.number;
  gas_limit = d.gas_limit;
  gas_used = d.gas_used;
  base_fee_per_gas = d.base_fee_per_gas;
  nonce = d.nonce;
  transaction_root = some d.transaction_root;
  receipts_root = some d.receipts_root;
  state_root = some d.state_root;
  parent_hash = d.parent_hash;
  miner = d.miner;
  logs_bloom = d.logs_bloom;
  difficulty = d.difficulty;
  total_difficulty = d.total_difficulty;
  sha3_uncles = d.sha3_uncles;
  timestamp = some d.timestamp;
  extra_data = d.extra_data;
  mix_hash = d.mix_hash;
  withdrawals_root = d.withdrawals_root;
  blob_gas_used = d.blob_gas_used;
  excess_blob_gas = d.excess_blob_gas;
  parent_beacon_block_root = d.parent_beacon_block_root;
  requests_hash = d.requests_hash;
}

pub record TransactionDto : Type 0 where
  pub transaction_hash : Text
  pub block_number : ℤ
  pub transaction_index : ℤ
  pub value : Text
  pub gas_price : Text
  pub gas : Text
  pub from_addr : Option Text
  pub to_addr : Option Text
  pub max_priority_fee_per_gas : Text
  pub max_fee_per_gas : Text
  pub chain_id : Option Text

pub record IndexMetadataDto : Type 0 where
  pub id : ℤ
  pub current_latest_block_number : ℤ
  pub indexing_starting_block_number : ℤ
  pub is_backfilling : Bool
  pub updated_at : ℕ
  pub backfilling_block_number : Option ℤ

pub record Tables : Type 0 where
  pub blockheaders : List HeaderRow
  pub transactions : List TransactionDto
  pub index_metadata : List IndexMetadataDto

-- `INSERT … ON CONFLICT (number) DO UPDATE SET …`, which gives every column anew: the row takes the
-- place of the row of its number, or is added.
unfoldable pub upsert_header : HeaderRow → List HeaderRow → List HeaderRow
upsert_header r [] = r ∷ []
upsert_header r (s ∷ rows) = if eqb_ℤ s.number r.number then r ∷ rows else s ∷ upsert_header r rows

unfoldable pub upsert_headers : List HeaderRow → List HeaderRow → List HeaderRow
unfolding upsert_header
upsert_headers [] rows = rows
upsert_headers (r ∷ rs) rows = upsert_headers rs (upsert_header r rows)

-- The same with the key `transaction_hash`.
unfoldable pub upsert_transaction : TransactionDto → List TransactionDto → List TransactionDto
unfolding text_eq
upsert_transaction r [] = r ∷ []
upsert_transaction r (s ∷ rows) =
    if text_eq s.transaction_hash r.transaction_hash
    then r ∷ rows
    else s ∷ upsert_transaction r rows

unfoldable pub upsert_transactions : List TransactionDto → List TransactionDto → List TransactionDto
unfolding upsert_transaction
upsert_transactions [] rows = rows
upsert_transactions (r ∷ rs) rows = upsert_transactions rs (upsert_transaction r rows)

-- Whether a number is among some numbers, and whether a block is stored.
unfoldable pub memb : ℤ → List ℤ → Bool
memb n [] = false
memb n (m ∷ ms) = eqb_ℤ m n || memb n ms

unfoldable pub stored : ℤ → List HeaderRow → Bool
stored n [] = false
stored n (r ∷ rows) = eqb_ℤ r.number n || stored n rows

-- `number BETWEEN $1 AND $2`.
abbrev pub between : ℤ → ℤ → ℤ → Bool
between a b n = leb_ℤ a n && leb_ℤ n b
