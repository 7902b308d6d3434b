-- ===== src/Repositories/Headers.antt =====
-- src/repositories/block_header.rs: the inserts. The callers insert at least one header, so the
-- statement is well-formed.
use fossil_headers_db.Prelude.{ℕ, List, map, is_empty, if◌then◌else◌}
use fossil_headers_db.Errors.{BlockchainError, from_sqlx}
use fossil_headers_db.Rpc.{Transaction, BlockHeader}
use fossil_headers_db.Database.Rows.{
  BlockHeaderDto, row_of, TransactionDto, Tables, upsert_headers, upsert_transactions,
}
use fossil_headers_db.Database.Action.{Action, Env, ◌>>=◌, ◌>>◌, pure, lift, map_fault, execute}
use fossil_headers_db.Repositories.Convert.{
  format_headers, format_with_transactions, format_transactions,
}

-- The effect of the two statements.
unfoldable pub put_headers : List BlockHeaderDto → ℕ → Tables → Tables
unfolding upsert_headers
put_headers dtos now t = record t { blockheaders = upsert_headers (map row_of dtos) t.blockheaders }

unfoldable pub put_transactions : List TransactionDto → ℕ → Tables → Tables
unfolding upsert_transactions
put_transactions dtos now t = record t { transactions = upsert_transactions dtos t.transactions }

module _ (env : Env) where
  unfoldable pub insert_block_txs_query : List Transaction → Action BlockchainError (Unit {0})
  insert_block_txs_query transactions = do
    dtos ← lift (format_transactions transactions)
    map_fault from_sqlx (execute env (put_transactions dtos))

  unfoldable pub insert_block_header_query : List BlockHeader → Action BlockchainError (Unit {0})
  unfolding insert_block_txs_query
  insert_block_header_query block_headers = do
    formatted ← lift (format_with_transactions block_headers)
    map_fault from_sqlx (execute env (put_headers formatted.0))
    if is_empty formatted.1 then pure tt else insert_block_txs_query formatted.1

  unfoldable pub insert_block_header_only_query :
      List BlockHeader → Action BlockchainError (Unit {0})
  insert_block_header_only_query block_headers = do
    dtos ← lift (format_headers block_headers)
    map_fault from_sqlx (execute env (put_headers dtos))
