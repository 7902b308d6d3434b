-- ===== src/Batch/Serving.antt =====
-- src/indexer/batch_service.rs beside a node that has every block and a database that refuses
-- nothing: what is fetched and stored in one round.
use fossil_headers_db.Prelude.{
  ℕ, zero, suc, ◌+◌, ◌<◌, ℤ, eqb_ℤ_refl, none, ◌≡◌, refl, Bool, false, ◌||◌, List, [], ◌∷◌, arith,
}
use fossil_headers_db.Result.{Result, ok, err}
use fossil_headers_db.Errors.{Report}
use fossil_headers_db.Utils.{convert_hex_string_to_i64}
use fossil_headers_db.Types.{BlockNumber}
use fossil_headers_db.Config.Batch.{BatchIndexConfig}
use fossil_headers_db.Rpc.{BlockHeader}
use fossil_headers_db.Database.Rows.{stored, memb}
use fossil_headers_db.Database.Action.{Env, World, joined, begin, commit, load_terminate, ask_tasks}
use fossil_headers_db.Repositories.Succeeding.{
  IsStorable, AreStorable, inserting, inserting-succeeds,
}
use fossil_headers_db.Blocks.{sort_headers}
use fossil_headers_db.Blocks.Sorted.{sort_headers-All}
use fossil_headers_db.Commands.Healthy.{AreBlocks}
use fossil_headers_db.Batch.{
  store_gap_blocks, fill_from, fill_missing_blocks, try_fetch_missing_blocks, fetch_specific_blocks,
}
use fossil_headers_db.Batch.Responses.{
  Fetched, fetch_tasks, check_number, validate_block_header, process_single_block_response,
  add_response, process_specific_block_responses,
}
use fossil_headers_db.Batch.Missing.{IsBlock, block_values}
use fossil_headers_db.Batch.Filling.{Fills, fill_missing_blocks-Fills}

-- The node has every block, with its transactions where those are wanted, no task is late, no
-- statement is refused, and nobody asks to stop.
pub record IsServing (env : Env) (with_txs : Bool) : Type 0 where
  pub answers :
      (t : ℕ) (b : BlockNumber)
      → IsBlock b.value
      → (h : BlockHeader) × (env.fetch t b ≡ joined (ok h))
        × (convert_hex_string_to_i64 h.number ≡ ok b.value)
        × IsStorable with_txs h
  pub prompt : (t : ℕ) (b : BlockNumber) → env.elapsed t b ≡ false
  pub unfailing : (t : ℕ) → env.fault t ≡ none
  pub continuing : (t : ℕ) → env.terminated t ≡ false

-- No block failed, and every header can be stored.
record IsWhole (with_txs : Bool) (f : Fetched) : Type 0 where
  none_failed : f.error_count ≡ 0
  storable : AreStorable with_txs f.block_headers

-- Filling some blocks stores them beside what was, and leaves the metadata alone.
pub record FillsAll (ns : List ℤ) (w : World) (m : Result Report (Unit {0}) × World) : Type 0 where
  pub succeeds : m.0 ≡ ok tt
  pub blocks :
      (n : ℤ) → stored n m.1.tables.blockheaders ≡ (memb n ns || stored n w.tables.blockheaders)
  pub metadata : m.1.tables.index_metadata ≡ w.tables.index_metadata

module _ (env : Env) (config : BatchIndexConfig)
    (serving : IsServing env config.should_index_txs) where
  answers-IsWhole :
      (t : ℕ) (bs : List BlockNumber)
      → AreBlocks bs
      → IsWhole config.should_index_txs
          (process_specific_block_responses (fetch_tasks (env.elapsed t) (env.fetch t) bs) bs)
  unfolding process_specific_block_responses fetch_tasks process_single_block_response
      validate_block_header check_number add_response
  answers-IsWhole t [] inside = record { none_failed = refl; storable = tt }
  answers-IsWhole t (b ∷ bs) (here, inside) =
      let (h, found, reads, fits) = serving.answers t b here in
      let rest = answers-IsWhole t bs inside in
      rw (serving.prompt t b, found, reads, eqb_ℤ_refl b.value)
        (record { none_failed = rest.none_failed; storable = (fits, rest.storable) })

  store_gap_blocks-succeeds :
      (hs : List BlockHeader) (w : World)
      → AreStorable config.should_index_txs hs
      → (store_gap_blocks env config hs w).0 ≡ ok tt
  unfolding store_gap_blocks begin commit
  store_gap_blocks-succeeds [] w s = refl
  store_gap_blocks-succeeds (h ∷ hs) w s =
      let u : World = record w { tick = w.tick + 1; pending = w.tables } in
      let sorted = sort_headers-All (IsStorable config.should_index_txs) (h ∷ hs) s in
      let inserted =
        inserting-succeeds env serving.unfailing config.should_index_txs (sort_headers (h ∷ hs)) u
          sorted in
      rw (serving.unfailing w.tick) (
        rw inserted (
          rw
            (serving.unfailing
              (inserting env config.should_index_txs (sort_headers (h ∷ hs)) u).1.tick)
            refl))

  fill_from-succeeds :
      (left round : ℕ) (bs : List BlockNumber) (w : World)
      → 0 < left
      → AreBlocks bs
      → (fill_from env config left round bs w).0 ≡ ok tt
  unfolding fill_from load_terminate try_fetch_missing_blocks fetch_specific_blocks ask_tasks
  fill_from-succeeds zero round bs w retries inside = absurd (omega arith)
  fill_from-succeeds (suc left) round bs w retries inside =
      let t : ℕ = w.tick + 1 in
      let f : Fetched =
        process_specific_block_responses (fetch_tasks (env.elapsed t) (env.fetch t) bs) bs in
      let whole : IsWhole config.should_index_txs f = answers-IsWhole t bs inside in
      rw (serving.continuing w.tick, whole.none_failed)
        (store_gap_blocks-succeeds f.block_headers (record w { tick = t + 1 }) whole.storable)

  fill_missing_blocks-succeeds :
      (bs : List BlockNumber) (w : World)
      → 0 < config.max_retries
      → AreBlocks bs
      → (fill_missing_blocks env config bs w).0 ≡ ok tt
  unfolding fill_missing_blocks
  fill_missing_blocks-succeeds bs w retries inside =
      fill_from-succeeds config.max_retries 0 bs w retries inside

  succeeded :
      (ns : List ℤ) (w : World) (m : Result Report (Unit {0}) × World)
      → m.0 ≡ ok tt
      → Fills ns w m
      → FillsAll ns w m
  succeeded ns w (ok a, v) h (blocks, same) = record {
    succeeds = h;
    blocks = blocks;
    metadata = same;
  }
  succeeded ns w (err e, v) h fills = cc

  pub fill_missing_blocks-FillsAll :
      (bs : List BlockNumber) (w : World)
      → 0 < config.max_retries
      → AreBlocks bs
      → FillsAll (block_values bs) w (fill_missing_blocks env config bs w)
  fill_missing_blocks-FillsAll bs w retries inside =
      succeeded (block_values bs) w (fill_missing_blocks env config bs w)
        (fill_missing_blocks-succeeds bs w retries inside)
        (fill_missing_blocks-Fills env config bs w)
