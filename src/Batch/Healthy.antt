-- ===== src/Batch/Healthy.antt =====
-- src/indexer/batch_service.rs, a cycle beside a node that has every block and a database that
-- refuses nothing: it fills the whole range and says so.
use fossil_headers_db.Prelude.{
  ℕ, zero, suc, ◌+◌, ◌<◌, ℤ, ◌≡◌, refl, ap, ◌∙◌, inl, inr, true, false, not, ◌&&◌, List, [], ◌∷◌,
  ◌++◌, arith, Bool-cases, leb_ℤ, length, unwrap_or, min_ℤ, pos, ◌-ℤ◌, map, is_empty,
}
use fossil_headers_db.Prelude.Machine.{add_i64, sub_i64}
use fossil_headers_db.Result.{Result, ok}
use fossil_headers_db.Errors.{Report}
use fossil_headers_db.Types.{BlockNumber, from_trusted}
use fossil_headers_db.Config.Batch.{BatchIndexConfig}
use fossil_headers_db.Blocks.{span, inclusive}
use fossil_headers_db.Database.Rows.{IndexMetadataDto, stored, memb, between}
use fossil_headers_db.Database.Action.{Env, World, query, begin, execute, commit, load_terminate}
use fossil_headers_db.Repositories.Metadata.{
  first_row, found, get_index_metadata, set_is_backfilling,
}
use fossil_headers_db.Commands.Healthy.{AreBlocks}
use fossil_headers_db.Batch.{
  chunk_size, unstored, get_current_metadata, find_chunk, find_from, find_missing_blocks_with_db,
  is_backfill_complete, mark_backfill_complete, update_backfilling_progress, fill_missing_blocks,
  fill_batches, process_missing_blocks_in_batches, finish_cycle, process_missing_blocks_cycle,
}
use fossil_headers_db.Batch.Responses.{chunks}
use fossil_headers_db.Batch.Missing.{IsBlock, block_values, memb-append, find_missing_blocks-exact}
use fossil_headers_db.Batch.Complete.{Stored, Finished, process_missing_blocks_cycle_complete}
use fossil_headers_db.Batch.Batches.{
  all_values, AreAllBlocks, memb-chunks_pos, range_IsBlock, chunks-AreAllBlocks, found-AreBlocks,
  nothing_found,
}
use fossil_headers_db.Batch.Serving.{IsServing, FillsAll, fill_missing_blocks-FillsAll}

module _ (env : Env) (config : BatchIndexConfig)
    (serving : IsServing env config.should_index_txs) where
  find_from-succeeds :
      (fuel : ℕ) (a b : ℤ) (w : World)
      → (ms : List ℤ) × ((find_from env config fuel a b w).0 ≡ ok ms)
  unfolding find_from find_chunk query
  find_from-succeeds zero a b w = ([], refl)
  find_from-succeeds (suc fuel) a b w =
      let c : ℤ = min_ℤ (sub_i64 (add_i64 a chunk_size) (pos 1)) b in
      let (ms, p) =
        find_from-succeeds fuel (add_i64 c (pos 1)) b (record w { tick = w.tick + 1 }) in
      elim (Bool-cases (leb_ℤ a b)) [
        | inr past ↦ ([], rw past refl)
        | inl inside ↦ (
          unstored (inclusive a c) w.tables.blockheaders ++ ms,
          rw (inside, serving.unfailing w.tick, p) refl,
        )
      ]

  find_missing_blocks-succeeds :
      (a b : ℤ) (w : World)
      → (bs : List BlockNumber) × ((find_missing_blocks_with_db env config a b w).0 ≡ ok bs)
  unfolding find_missing_blocks_with_db
  find_missing_blocks-succeeds a b w =
      let (ms, p) = find_from-succeeds (suc (span (b -ℤ a))) a b w in
      (map from_trusted ms, rw p refl)

  fill_batches-FillsAll :
      (bss : List (List BlockNumber)) (w : World)
      → 0 < config.max_retries
      → AreAllBlocks bss
      → FillsAll (all_values bss) w (fill_batches env config bss w)
  unfolding fill_batches load_terminate all_values memb
  fill_batches-FillsAll [] w retries inside = record {
    succeeds = refl;
    blocks = λ n. refl;
    metadata = refl;
  }
  fill_batches-FillsAll (bs ∷ bss) w retries (here, inside) =
      let v : World = record w { tick = w.tick + 1 } in
      let u : World = (fill_missing_blocks env config bs v).1 in
      let first : FillsAll (block_values bs) v (fill_missing_blocks env config bs v) =
        fill_missing_blocks-FillsAll env config serving bs v retries here in
      let rest : FillsAll (all_values bss) u (fill_batches env config bss u) =
        fill_batches-FillsAll bss u retries inside in
      rw (serving.continuing w.tick, first.succeeds)
        (record {
          succeeds = rest.succeeds;
          blocks = λ n.
              rw (memb-append n (block_values bs) (all_values bss), rest.blocks n, first.blocks n)
                (ground arith);
          metadata = rest.metadata ∙ first.metadata;
        })

  mark_backfill_complete-succeeds : (w : World) → (mark_backfill_complete env config w).0 ≡ ok tt
  unfolding mark_backfill_complete begin set_is_backfilling execute commit
  mark_backfill_complete-succeeds w =
      rw
        (
          serving.unfailing w.tick,
          serving.unfailing (w.tick + 1),
          serving.unfailing (w.tick + 1 + 1),
        )
        refl

  update_backfilling_progress-succeeds :
      (k : ℤ) (w : World) → (update_backfilling_progress env config k w).0 ≡ ok tt
  unfolding update_backfilling_progress begin execute commit
  update_backfilling_progress-succeeds k w =
      rw
        (
          serving.unfailing w.tick,
          serving.unfailing (w.tick + 1),
          serving.unfailing (w.tick + 1 + 1),
        )
        refl

  -- Where nothing is missing any more, the end of a cycle says so.
  finish_cycle-true :
      (a b : ℤ) (w : World)
      → IsBlock a
      → IsBlock b
      → Stored a b w.tables
      → (finish_cycle env config a b w).0 ≡ ok true
  unfolding finish_cycle is_backfill_complete
  finish_cycle-true a b w ha hb all =
      let (bs, p) = find_missing_blocks-succeeds a b w in
      let (same, exact) = find_missing_blocks-exact env config a b w ha hb in
      let v : World = (find_missing_blocks_with_db env config a b w).1 in
      let u : World = (update_backfilling_progress env config a v).1 in
      let none_left : is_empty bs ≡ true = nothing_found bs (λ n. rw (exact bs p n) (within n)) in
      rw (p, none_left, update_backfilling_progress-succeeds a v, mark_backfill_complete-succeeds u)
        refl
    where
      within : (n : ℤ) → (between a b n && not (stored n w.tables.blockheaders)) ≡ false
      within n = elim (Bool-cases (between a b n)) [
        | inr outside ↦ rw outside refl
        | inl inside ↦ rw (all n (ground arith) (ground arith)) (ground arith)
      ]

  get_current_metadata-first :
      (w : World) (m : IndexMetadataDto)
      → first_row w.tables.index_metadata ≡ ok m
      → get_current_metadata env config w ≡ (ok m, record w { tick = w.tick + 1 })
  unfolding get_current_metadata get_index_metadata query found
  get_current_metadata-first w m row = rw (serving.unfailing w.tick, row) refl

  -- The batches made of all missing blocks leave nothing missing.
  filled-Stored :
      (a b : ℤ) (w v : World) (bs : List BlockNumber) (ns : List ℤ)
      (m : Result Report (Unit {0}) × World)
      → v.tables ≡ w.tables
      → ((n : ℤ)
          → memb n (block_values bs) ≡ (between a b n && not (stored n w.tables.blockheaders)))
      → ((n : ℤ) → memb n ns ≡ memb n (block_values bs))
      → FillsAll ns v m
      → Stored a b m.1.tables
  filled-Stored a b w v bs ns m same exact whole fills n low high =
      rw (fills.blocks n, whole n, exact n, same) (ground arith)

  cycle-true :
      (w : World) (m : IndexMetadataDto)
      → first_row w.tables.index_metadata ≡ ok m
      → IsBlock m.indexing_starting_block_number
      → IsBlock (unwrap_or m.backfilling_block_number m.current_latest_block_number)
      → 0 < config.max_retries
      → 0 < config.index_batch_size
      → (process_missing_blocks_cycle env config w).0 ≡ ok true
  unfolding process_missing_blocks_cycle process_missing_blocks_in_batches
  cycle-true w m row ha hb retries size =
      let a : ℤ = m.indexing_starting_block_number in
      let b : ℤ = unwrap_or m.backfilling_block_number m.current_latest_block_number in
      let v : World = record w { tick = w.tick + 1 } in
      let (bs, p) = find_missing_blocks-succeeds a b v in
      let (same, found_exactly) = find_missing_blocks-exact env config a b v ha hb in
      let exact = found_exactly bs p in
      let u : World = (find_missing_blocks_with_db env config a b v).1 in
      let bss : List (List BlockNumber) = chunks (length bs) config.index_batch_size bs in
      let all_blocks : AreBlocks bs =
        found-AreBlocks bs (λ n k. range_IsBlock a b n _ _ ha hb (exact n) k) in
      let filled : FillsAll (all_values bss) u (fill_batches env config bss u) =
        fill_batches-FillsAll bss u retries
          (chunks-AreAllBlocks (length bs) config.index_batch_size bs all_blocks) in
      let x : World = (fill_batches env config bss u).1 in
      let all : Stored a b x.tables =
        filled-Stored a b v u bs (all_values bss) (fill_batches env config bss u) same exact
          (λ n. memb-chunks_pos n bs config.index_batch_size size) filled in
      rw (get_current_metadata-first w m row, p)
        (elim (Bool-cases (is_empty bs)) [
          | inl none_left ↦ rw (none_left, mark_backfill_complete-succeeds u) refl
          | inr some_left ↦ rw (some_left, filled.succeeds) (finish_cycle-true a b x ha hb all)
        ])

  -- Beside a node that has every block, with its transactions where those are wanted, and a database
  -- that refuses nothing, while no task is late and nobody asks to stop: if the range that the first
  -- row of the metadata gives lies between 0 and 2^62, and the retries and the batch size are
  -- positive, one cycle succeeds and reports that the backfill is complete, all blocks of the range
  -- are stored, and no row of the metadata says any more that a backfill is under way.
  pub process_missing_blocks_cycle_fills :
      (w : World) (m : IndexMetadataDto)
      → first_row w.tables.index_metadata ≡ ok m
      → IsBlock m.indexing_starting_block_number
      → IsBlock (unwrap_or m.backfilling_block_number m.current_latest_block_number)
      → 0 < config.max_retries
      → 0 < config.index_batch_size
      → let (r, w') = process_missing_blocks_cycle env config w in
        (r ≡ ok true)
        × Stored m.indexing_starting_block_number
            (unwrap_or m.backfilling_block_number m.current_latest_block_number)
            w'.tables
        × Finished w'.tables.index_metadata
  process_missing_blocks_cycle_fills w m row ha hb retries size =
      let done : (process_missing_blocks_cycle env config w).0 ≡ ok true =
        cycle-true w m row ha hb retries size in
      let w' : World = (process_missing_blocks_cycle env config w).1 in
      let (all, finished) =
        process_missing_blocks_cycle_complete env config w w' m row ha hb
          (ap (λ r. (r, w')) done) in
      (done, all, finished)
