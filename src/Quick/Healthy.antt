-- ===== src/Quick/Healthy.antt =====
-- src/indexer/quick_service.rs, beside a database that refuses nothing: a store of headers that
-- are in order succeeds, and so does the verification of a range that is stored.
use fossil_headers_db.Prelude.{
  ℕ, suc, ◌+◌, ◌-◌, ◌≤◌, ◌<◌, ℤ, pos, ltb_ℤ, ◌≡◌, refl, Bool, true, false, List, arith, ◌==◌,
}
use fossil_headers_db.Result.{ok}
use fossil_headers_db.Config.Quick.{QuickIndexConfig}
use fossil_headers_db.Rpc.{BlockHeader}
use fossil_headers_db.Database.Rows.{HeaderRow, stored, between}
use fossil_headers_db.Database.Action.{Env, World, begin, execute, commit, query}
use fossil_headers_db.Repositories.Metadata.{
  update_metadata, update_latest_quick_index_block_number_query,
}
use fossil_headers_db.Repositories.Succeeding.{AreStorable, inserting, inserting-succeeds}
use fossil_headers_db.Repositories.Unique.{
  AreUnique, count_stored, count_unstored_none, inserting-KeepsUnique,
}
use fossil_headers_db.Blocks.{inclusive}
use fossil_headers_db.Batch.Missing.{memb-inclusive}
use fossil_headers_db.Batch.Complete.{Stored}
use fossil_headers_db.Batch.Serving.{IsServing}
use fossil_headers_db.Quick.{
  insert_headers, finish_store, store_block_headers, verify_blocks_stored, count_between,
  count_unstored, expected_blocks,
}
use fossil_headers_db.Quick.Responses.{verify_order}
use fossil_headers_db.Quick.Fetched.{expected_count-pos}

module _ (env : Env) (config : QuickIndexConfig)
    (serving : IsServing env config.should_index_txs) where
  pub store_block_headers-succeeds :
      (hs : List BlockHeader) (e : ℤ) (w : World)
      → verify_order hs e ≡ ok hs
      → AreStorable config.should_index_txs hs
      → AreUnique w.tables.blockheaders
      → let (r, w') = store_block_headers env config hs e w in
        (r ≡ ok tt) × AreUnique w'.tables.blockheaders
  unfolding store_block_headers begin insert_headers finish_store commit execute
      update_latest_quick_index_block_number_query update_metadata
  store_block_headers-succeeds hs e w verified fits u =
      let b : Bool = config.should_index_txs in
      let v : World = record w { tick = w.tick + 1; pending = w.tables } in
      let inserted : (inserting env b hs v).0 ≡ ok tt =
        inserting-succeeds env serving.unfailing b hs v fits in
      let x : World = (inserting env b hs v).1 in
      let unique : AreUnique x.pending.blockheaders = inserting-KeepsUnique env b hs v u in
      rw (verified, serving.unfailing w.tick)
        (rw inserted (rw (serving.unfailing x.tick, serving.unfailing (x.tick + 1)) (refl, unique)))

  pub verify_blocks_stored-succeeds :
      (a b : ℕ) (w : World)
      → a ≤ b
      → b < 4611686018427387904
      → AreUnique w.tables.blockheaders
      → Stored (pos a) (pos b) w.tables
      → (verify_blocks_stored env config (pos a) (pos b) w).0 ≡ ok tt
  unfolding verify_blocks_stored query expected_blocks
  verify_blocks_stored-succeeds a b w h k u all =
      let rows : List HeaderRow = w.tables.blockheaders in
      let count : count_between (pos a) (pos b) rows ≡ suc (b - a) =
        count_stored (suc (b - a)) a b rows u (omega arith)
          (λ n low high. all (pos n) (omega arith) (omega arith)) in
      let same : (suc (b - a) == suc (b - a)) ≡ true = ground arith in
      let forward : ltb_ℤ (pos b) (pos a) ≡ false = ground arith in
      let none_left : count_unstored (inclusive (pos a) (pos b)) rows ≡ 0 =
        count_unstored_none (inclusive (pos a) (pos b)) rows
          (λ n inside. in_range n (rw (memb-inclusive n a b h (omega arith)) at inside)) in
      rw
        (
          expected_count-pos a b h k,
          serving.unfailing w.tick,
          count,
          same,
          serving.unfailing (w.tick + 1),
          forward,
          none_left,
        )
        refl
    where
      in_range : (n : ℤ) → between (pos a) (pos b) n ≡ true → stored n w.tables.blockheaders ≡ true
      in_range n inside = all n (ground arith) (ground arith)
