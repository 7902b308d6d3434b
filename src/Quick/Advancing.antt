-- ===== src/Quick/Advancing.antt =====
-- src/indexer/quick_service.rs, a cycle beside a node that has every block and a database that
-- refuses nothing: it stores the next range.
use fossil_headers_db.Prelude.{
  ℕ, zero, suc, ◌+◌, ◌-◌, min, ◌≤◌, ◌<◌, ℤ, pos, negsuc, ltb_ℤ, ◌≡◌, refl, inl, inr, true, List, [],
  ◌∷◌, map, arith, Bool-cases, length, ◌==◌,
}
use fossil_headers_db.Prelude.Machine.{add_i64, sub_i64}
use fossil_headers_db.Result.{Result, ok, err}
use fossil_headers_db.Errors.{Report}
use fossil_headers_db.Types
use fossil_headers_db.Types.{BlockNumber, from_trusted}
use fossil_headers_db.Config.Quick.{QuickIndexConfig}
use fossil_headers_db.Rpc.{BlockHeader}
use fossil_headers_db.Database.Rows.{IndexMetadataDto, Tables, stored, memb}
use fossil_headers_db.Database.Action.{Env, World, query, ask_blocks, load_terminate, ask_finalized}
use fossil_headers_db.Repositories.Lookup.{keys}
use fossil_headers_db.Repositories.Metadata.{first_row, found, get_index_metadata, with_latest}
use fossil_headers_db.Repositories.Unique.{AreUnique}
use fossil_headers_db.Blocks.{inclusive}
use fossil_headers_db.Blocks.Ranges.{add_i64-pos, sub_i64-pos}
use fossil_headers_db.Batch.Missing.{inclusive-eq}
use fossil_headers_db.Batch.Complete.{Stored}
use fossil_headers_db.Batch.Serving.{IsServing}
use fossil_headers_db.Quick.{
  calculate_ending_block, has_new_blocks, get_last_indexed_block, get_latest_finalized_block,
  fetch_block_headers, store_block_headers, verify_blocks_stored, fetch_and_store_blocks,
  log_indexing_success, retry_from, retry_with_backoff, index_block_range, index_new_blocks,
  process_indexing_cycle,
}
use fossil_headers_db.Quick.Responses.{verify_order, process_rpc_responses}
use fossil_headers_db.Quick.Transaction.{Advanced, Stores, store_block_headers-Stores}
use fossil_headers_db.Quick.Attempt.{verify_blocks_stored-tables}
use fossil_headers_db.Quick.NoGaps.{log_indexing_success-tables}
use fossil_headers_db.Quick.Healthy.{store_block_headers-succeeds, verify_blocks_stored-succeeds}
use fossil_headers_db.Quick.Fetched.{
  Sequence, next, answers_of, Fetched, fetched, key-next, verify_order-Sequence,
  process_rpc_responses-Sequence, expected_count-pos,
}

keys-Sequence :
    (a n : ℕ) (hs : List BlockHeader)
    → a ≤ n
    → n < a + length hs
    → Sequence a hs
    → memb (pos n) (keys hs) ≡ true
unfolding memb keys
keys-Sequence a n [] low high s = absurd (omega arith)
keys-Sequence a n (g ∷ gs) low high (next _ _ reads s) = elim (Bool-cases (a == n)) [
  | inl same ↦ rw (key-next a g reads) (ground arith)
  | inr later ↦
      let rest = keys-Sequence (suc a) n gs (ground arith) (omega arith) s in ground (arith, rest)
]

-- The end of the next range.
ending_block-min :
    (env : Env) (config : QuickIndexConfig) (l : ℕ) (b : BlockNumber) (v : ℕ)
    → b.value ≡ pos v
    → l < v
    → v < 4611686018427387904
    → calculate_ending_block env config (pos l) b ≡ pos (min (l + config.index_batch_size) v)
unfolding calculate_ending_block Types.sub_self
ending_block-min env config l b v same h k =
    let difference : sub_i64 (pos v) (pos l) ≡ pos (v - l) =
      sub_i64-pos l v (omega arith) (omega arith) in
    elim (Bool-cases (ltb_ℤ (pos config.index_batch_size) (pos (v - l)))) [
      | inl larger ↦
          let sum : add_i64 (pos l) (pos config.index_batch_size)
              ≡ pos (l + config.index_batch_size) =
            add_i64-pos l config.index_batch_size (ground arith) in
          rw (same, difference, larger, sum) (ground arith)
      | inr smaller ↦ rw (same, difference, smaller) (ground arith)
    ]

-- The action succeeds; every block of the range is stored, none is lost, the rows stay unique, and
-- every row of the metadata records the end of the range.
pub record Advances {E : Type 0} (a b : ℕ) (w : World) (m : Result E (Unit {0}) × World)
    : Type 0 where
  pub succeeds : m.0 ≡ ok tt
  pub stores : Stored (pos a) (pos b) m.1.tables
  pub keeps :
      (n : ℤ) → stored n w.tables.blockheaders ≡ true → stored n m.1.tables.blockheaders ≡ true
  pub unique : AreUnique m.1.tables.blockheaders
  pub now : ℕ
  pub recorded : m.1.tables.index_metadata ≡ map (with_latest (pos b) now) w.tables.index_metadata

advanced :
    (hs : List BlockHeader) (e : ℤ) (w : World) (m : Result Report (Unit {0}) × World)
    → m.0 ≡ ok tt
    → Stores hs e w m
    → Advanced hs e w.tables m.1.tables
advanced hs e w (ok a, v) h s = s
advanced hs e w (err bad, v) h s = cc

module _ (env : Env) (config : QuickIndexConfig)
    (serving : IsServing env config.should_index_txs) where
  covers_range :
      (hs : List BlockHeader) (a b : ℕ) (t t' : Tables)
      → a + length hs ≡ suc b
      → Sequence a hs
      → Advanced hs (pos b) t t'
      → Stored (pos a) (pos b) t'
  covers_range hs a b t t' whole s adv (pos n) low high =
      let here : memb (pos n) (keys hs) ≡ true =
        keys-Sequence a n hs (omega arith) (omega arith) s in
      rw (adv.blocks (pos n), here) refl
  covers_range hs a b t t' whole s adv (negsuc n) low high = absurd (omega arith)

  fetch_and_store_blocks-Advances :
      (a b : ℕ) (w : World)
      → a ≤ b
      → b < 4611686018427387904
      → AreUnique w.tables.blockheaders
      → Advances a b w
          (fetch_and_store_blocks env config (inclusive (pos a) (pos b)) (pos a) (pos b) w)
  unfolding fetch_and_store_blocks fetch_block_headers ask_blocks
  fetch_and_store_blocks-Advances a b w h k u =
      let f : Fetched env config.should_index_txs w.tick a 0 (suc (b - a)) =
        fetched env config.should_index_txs serving w.tick a 0 (suc (b - a)) (omega arith) in
      let hs : List BlockHeader = f.headers in
      let v : World = record w { tick = w.tick + 1 } in
      let zero_more : a + 0 ≡ a = omega arith in
      let s : Sequence a hs = rw zero_more at f.sequence in
      let size : length hs ≡ suc (b - a) = f.count in
      let passes : process_rpc_responses (answers_of hs) (pos a) (pos b) ≡ ok hs =
        process_rpc_responses-Sequence a b (suc (b - a)) hs (expected_count-pos a b h k) size
          (omega arith) s in
      let order : verify_order hs (pos b) ≡ ok hs =
        verify_order-Sequence a b hs (omega arith) (omega arith) (omega arith) s in
      let (stores, unique) =
        store_block_headers-succeeds env config serving hs (pos b) v order f.storable u in
      let x : World = (store_block_headers env config hs (pos b) v).1 in
      let adv : Advanced hs (pos b) v.tables x.tables =
        advanced hs (pos b) v (store_block_headers env config hs (pos b) v) stores
          (store_block_headers-Stores env config hs (pos b) v) in
      let all : Stored (pos a) (pos b) x.tables =
        covers_range hs a b v.tables x.tables (omega arith) s adv in
      let verified : (verify_blocks_stored env config (pos a) (pos b) x).0 ≡ ok tt =
        verify_blocks_stored-succeeds env config serving a b x h k unique all in
      let same : (verify_blocks_stored env config (pos a) (pos b) x).1.tables ≡ x.tables =
        verify_blocks_stored-tables env config (pos a) (pos b) x in
      rw (inclusive-eq a b h (omega arith), f.joins, passes, stores, verified)
        (record {
          succeeds = refl;
          stores = rw same all;
          keeps = λ n old. rw (same, adv.blocks n, old) (ground arith);
          unique = rw same unique;
          now = adv.now;
          recorded = rw same adv.metadata;
        })

  log_indexing_success-succeeds : (w : World) → (log_indexing_success env config w).0 ≡ ok tt
  unfolding log_indexing_success query
  log_indexing_success-succeeds w = refl

  retry_from-Advances :
      (left round a b : ℕ) (w : World)
      → 0 < left
      → a ≤ b
      → b < 4611686018427387904
      → AreUnique w.tables.blockheaders
      → Advances a b w
          (retry_from env config left round (inclusive (pos a) (pos b)) (pos a) (pos b) w)
  unfolding retry_from load_terminate
  retry_from-Advances zero round a b w retries h k u = absurd (omega arith)
  retry_from-Advances (suc left) round a b w retries h k u =
      let range : List ℤ = inclusive (pos a) (pos b) in
      let v : World = record w { tick = w.tick + 1 } in
      let m : Result Report (Unit {0}) × World =
        fetch_and_store_blocks env config range (pos a) (pos b) v in
      let adv : Advances a b v m = fetch_and_store_blocks-Advances a b v h k u in
      let same : (log_indexing_success env config m.1).1.tables ≡ m.1.tables =
        log_indexing_success-tables env config range m.1 in
      rw (serving.continuing w.tick, adv.succeeds)
        (record {
          succeeds = log_indexing_success-succeeds m.1;
          stores = rw same adv.stores;
          keeps = λ n old. rw same (adv.keeps n old);
          unique = rw same adv.unique;
          now = adv.now;
          recorded = rw same adv.recorded;
        })

  -- Beside a node that has every block, with its transactions where those are wanted, and a database
  -- that refuses nothing, while no task is late and nobody asks to stop: if the first row of the
  -- metadata records the block `l`, the finalized block `v` is above it and below 2^62, no two rows
  -- have the same number, and the retries and the batch size are positive, then one cycle succeeds.
  -- It stores every block behind `l` up to the smaller of `v` and `l` plus the batch size, loses no
  -- block, keeps the rows unique, and records the end of the range in every row of the metadata.
  pub process_indexing_cycle-Advances :
      (w : World) (m : IndexMetadataDto) (b : BlockNumber) (l v : ℕ)
      → first_row w.tables.index_metadata ≡ ok m
      → m.current_latest_block_number ≡ pos l
      → env.finalized (w.tick + 1) ≡ ok b
      → b.value ≡ pos v
      → l < v
      → v < 4611686018427387904
      → AreUnique w.tables.blockheaders
      → 0 < config.max_retries
      → 0 < config.index_batch_size
      → Advances
          (l + 1)
          (min (l + config.index_batch_size) v)
          w
          (process_indexing_cycle env config w)
  unfolding process_indexing_cycle get_last_indexed_block get_index_metadata query found
      get_latest_finalized_block ask_finalized has_new_blocks index_new_blocks index_block_range
      retry_with_backoff
  process_indexing_cycle-Advances w m b l v row at_l latest at_v new small u retries size =
      let e : ℕ = min (l + config.index_batch_size) v in
      let x : World = record w { tick = w.tick + 1 + 1 } in
      let behind : Types.lt (from_trusted (pos l)) b ≡ true = rw at_v (ground arith) in
      let ending : calculate_ending_block env config (pos l) b ≡ pos e =
        ending_block-min env config l b v at_v new small in
      let start : add_i64 (pos l) (pos 1) ≡ pos (l + 1) = add_i64-pos l 1 (omega arith) in
      let adv : Advances (l + 1) e x (
          retry_from env config config.max_retries 0 (inclusive (pos (l + 1)) (pos e)) (pos (l + 1))
            (pos e) x) =
        retry_from-Advances config.max_retries 0 (l + 1) e x retries (omega arith) (omega arith)
          u in
      rw (serving.unfailing w.tick, row, latest, at_l, behind, ending, start)
        (record {
          succeeds = adv.succeeds;
          stores = adv.stores;
          keeps = adv.keeps;
          unique = adv.unique;
          now = adv.now;
          recorded = adv.recorded;
        })
