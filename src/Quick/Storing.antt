-- ===== src/Quick/Storing.antt =====
-- src/indexer/quick_service.rs, `store_block_headers`: its inserts.
use fossil_headers_db.Prelude.{inl, inr, List, Bool-cases}
use fossil_headers_db.Errors.{blockchain}
use fossil_headers_db.Config.Quick.{QuickIndexConfig}
use fossil_headers_db.Rpc.{BlockHeader}
use fossil_headers_db.Database.Action.{Env, World}
use fossil_headers_db.Repositories.Headers.{
  insert_block_header_only_query, insert_block_header_query,
}
use fossil_headers_db.Quick.{insert_headers}
use fossil_headers_db.Repositories.Storing.{Inserts, wrap-Inserts, only-Inserts, full-Inserts}

module _ (env : Env) (config : QuickIndexConfig) where
  pub insert_headers-Inserts :
      (hs : List BlockHeader) (w : World) → Inserts hs w (insert_headers env config hs w)
  unfolding insert_headers
  insert_headers-Inserts hs w = elim (Bool-cases config.should_index_txs) [
    | inl all ↦
        rw all
          (wrap-Inserts blockchain hs w (insert_block_header_query env hs) (full-Inserts env hs w))
    | inr only ↦ rw only (
        wrap-Inserts blockchain hs w (insert_block_header_only_query env hs)
          (only-Inserts env hs w))
  ]
