-- ===== src/Batch/Ending.antt =====
-- src/indexer/batch_service.rs, `index`: a service that is told to stop ends.
use fossil_headers_db.Prelude.{
  ℕ, zero, suc, ◌+◌, ◌≤◌, ℤ, pos, min_ℤ, leb_ℤ, ◌-ℤ◌, ◌≡◌, refl, inl, inr, Bool, true, false, List,
  [], ◌∷◌, some, arith, Bool-cases, is_empty, length, unwrap_or, none, Option, if◌then◌else◌,
}
use fossil_headers_db.Prelude.Machine.{add_i64, sub_i64}
use fossil_headers_db.Result.{Result, ok, err, Result-cases}
use fossil_headers_db.Errors.{Report, sqlx, blockchain}
use fossil_headers_db.Types.{BlockNumber}
use fossil_headers_db.Blocks.{span, sort_headers}
use fossil_headers_db.Config.Batch.{BatchIndexConfig}
use fossil_headers_db.Rpc.{BlockHeader}
use fossil_headers_db.Database.Action.{
  Env, World, Action, continue, pure, map_fault, query, begin, execute, commit, load_terminate,
  ask_tasks, sleep, ◌>>◌, sleep_millis,
}
use fossil_headers_db.Repositories.Headers.{
  insert_block_header_query, insert_block_header_only_query,
}
use fossil_headers_db.Repositories.Metadata.{get_index_metadata, set_is_backfilling}
use fossil_headers_db.Quick.Ending.{
  Forward, bind-Forward, if-Forward, not_yet, only-Forward, full-Forward,
}
use fossil_headers_db.Batch.{
  chunk_size, get_current_metadata, find_chunk, find_from, find_missing_blocks_with_db,
  is_backfill_complete, mark_backfill_complete, update_backfilling_progress, fetch_specific_blocks,
  try_fetch_missing_blocks, store_gap_blocks, apply_fetch_retry_backoff, fill_from,
  fill_missing_blocks, fill_batches, process_missing_blocks_in_batches, finish_cycle,
  process_missing_blocks_cycle, index_from, index,
}
use fossil_headers_db.Batch.Responses.{chunks}

module _ (env : Env) (config : BatchIndexConfig) where
  get_current_metadata-Forward : Forward (get_current_metadata env config)
  unfolding get_current_metadata get_index_metadata query
  get_current_metadata-Forward w = ground arith

  find_chunk-Forward : (a c : ℤ) → Forward (find_chunk env config a c)
  unfolding find_chunk query
  find_chunk-Forward a c w = ground arith

  find_from-Forward : (fuel : ℕ) (a b : ℤ) → Forward (find_from env config fuel a b)
  unfolding find_from
  find_from-Forward zero a b w = omega arith
  find_from-Forward (suc fuel) a b w =
      let c : ℤ = min_ℤ (sub_i64 (add_i64 a chunk_size) (pos 1)) b in
      if-Forward (leb_ℤ a b) _ (pure [])
        (bind-Forward (find_chunk env config a c) _ (find_chunk-Forward a c) (λ chunk.
          bind-Forward (find_from env config fuel (add_i64 c (pos 1)) b) _
            (λ u. find_from-Forward fuel (add_i64 c (pos 1)) b u) (λ rest u. omega arith)))
        (λ u. omega arith) w

  find_missing_blocks-Forward : (a b : ℤ) → Forward (find_missing_blocks_with_db env config a b)
  unfolding find_missing_blocks_with_db
  find_missing_blocks-Forward a b =
      bind-Forward (find_from env config (suc (span (b -ℤ a))) a b) _
        (find_from-Forward (suc (span (b -ℤ a))) a b) (λ missing w. omega arith)

  mark_backfill_complete-Forward : Forward (mark_backfill_complete env config)
  unfolding mark_backfill_complete begin set_is_backfilling execute commit
  mark_backfill_complete-Forward w = ground arith

  update_backfilling_progress-Forward : (k : ℤ) → Forward (update_backfilling_progress env config k)
  unfolding update_backfilling_progress begin execute commit
  update_backfilling_progress-Forward k w = ground arith

  store_gap_blocks-Forward : (hs : List BlockHeader) → Forward (store_gap_blocks env config hs)
  unfolding store_gap_blocks begin commit
  store_gap_blocks-Forward hs =
      if-Forward (is_empty hs) (pure tt) _ (λ w. omega arith)
        (bind-Forward (map_fault sqlx (begin env)) _ (λ w. ground arith)
          (λ _.
            bind-Forward
              (map_fault blockchain (
                if config.should_index_txs
                then insert_block_header_query env (sort_headers hs)
                else insert_block_header_only_query env (sort_headers hs)))
              _
              (if-Forward config.should_index_txs (insert_block_header_query env (sort_headers hs))
                (insert_block_header_only_query env (sort_headers hs))
                (full-Forward env (sort_headers hs)) (only-Forward env (sort_headers hs)))
              (λ _ w. ground arith)))

  -- What follows on a round's answers.
  abbrev after_fetch :
      ℕ → ℕ → List BlockNumber → Option (List BlockHeader) → Action Report (Unit {0})
  after_fetch left round bs (some hs) = store_gap_blocks env config hs
  after_fetch left round bs none =
      apply_fetch_retry_backoff env config round >> fill_from env config left (round + 1) bs

  fill_from-Forward :
      (left round : ℕ) (bs : List BlockNumber) → Forward (fill_from env config left round bs)
  unfolding fill_from load_terminate try_fetch_missing_blocks fetch_specific_blocks ask_tasks
      apply_fetch_retry_backoff sleep sleep_millis
  fill_from-Forward zero round bs w = omega arith
  fill_from-Forward (suc left) round bs w =
      let v : World = record w { tick = w.tick + 1 } in
      let go_on : v.tick
          ≤ (continue (try_fetch_missing_blocks env config bs round v).0 (after_fetch left round bs)
              (try_fetch_missing_blocks env config bs round v).1).1.tick =
        bind-Forward (try_fetch_missing_blocks env config bs round) (after_fetch left round bs)
          (λ u. ground arith) (stored (fill_from-Forward left (round + 1) bs)) v in
      elim (Bool-cases (env.terminated w.tick)) [
        | inl stop ↦ rw stop (omega arith)
        | inr go ↦ rw go (omega arith)
      ]
    where
      stored :
          Forward (fill_from env config left (round + 1) bs)
          → (fetched : Option (List BlockHeader)) → Forward (after_fetch left round bs fetched)
      stored again (some hs) = store_gap_blocks-Forward hs
      stored again none = λ u. again (record u { slept = _ })

  fill_batches-Forward : (bss : List (List BlockNumber)) → Forward (fill_batches env config bss)
  unfolding fill_batches load_terminate fill_missing_blocks
  fill_batches-Forward [] w = omega arith
  fill_batches-Forward (bs ∷ bss) w =
      let v : World = record w { tick = w.tick + 1 } in
      let next : v.tick
          ≤ ((fill_missing_blocks env config bs >> fill_batches env config bss) v).1.tick =
        bind-Forward (fill_missing_blocks env config bs) (λ _. fill_batches env config bss)
          (fill_from-Forward config.max_retries 0 bs) (λ _ u. fill_batches-Forward bss u) v in
      elim (Bool-cases (env.terminated w.tick)) [
        | inl stop ↦ rw stop (omega arith)
        | inr go ↦ rw go (omega arith)
      ]

  finish_cycle-Forward : (a b : ℤ) → Forward (finish_cycle env config a b)
  unfolding finish_cycle is_backfill_complete
  finish_cycle-Forward a b =
      bind-Forward (is_backfill_complete env config a b) _
        (bind-Forward (find_missing_blocks_with_db env config a b) _
          (find_missing_blocks-Forward a b) (λ bs u. omega arith))
        (λ complete.
          if-Forward complete _ (pure false)
            (bind-Forward (update_backfilling_progress env config a) _
              (update_backfilling_progress-Forward a)
              (λ _.
                bind-Forward (mark_backfill_complete env config) _ mark_backfill_complete-Forward
                  (λ _ u. omega arith)))
            (λ u. omega arith))

  process_missing_blocks_cycle-Forward : Forward (process_missing_blocks_cycle env config)
  unfolding process_missing_blocks_cycle process_missing_blocks_in_batches
  process_missing_blocks_cycle-Forward =
      bind-Forward (get_current_metadata env config) _ get_current_metadata-Forward (λ metadata.
        let a : ℤ = metadata.indexing_starting_block_number in
        let b : ℤ =
          unwrap_or metadata.backfilling_block_number metadata.current_latest_block_number in
        bind-Forward (find_missing_blocks_with_db env config a b) _
          (find_missing_blocks-Forward a b)
          (λ bs.
            if-Forward (is_empty bs) _ _
              (bind-Forward (mark_backfill_complete env config) _ mark_backfill_complete-Forward
                (λ _ u. omega arith))
              (bind-Forward (process_missing_blocks_in_batches env config bs) _
                (fill_batches-Forward (chunks (length bs) config.index_batch_size bs))
                (λ _. finish_cycle-Forward a b))))

  -- How the service ends: with a result, in some state.
  abbrev Ends : Option (Result Report (Unit {0}) × World) → Type 0
  Ends o = (r : Result Report (Unit {0})) × (w' : World) × (o ≡ some (r, w'))

  index_from_stops :
      (limit fuel : ℕ) (w : World)
      → ((t : ℕ) → limit ≤ t → env.terminated t ≡ true)
      → limit + 1 ≤ fuel + w.tick
      → 1 ≤ fuel
      → Ends (index_from env config fuel w)
  unfolding index_from load_terminate sleep_millis
  index_from_stops limit zero w told enough h = absurd (omega arith)
  index_from_stops limit (suc fuel) w told enough h =
      let w1 : World = record w { tick = w.tick + 1 } in
      let m : Result Report Bool × World = process_missing_blocks_cycle env config w1 in
      let later : w.tick + 1 ≤ m.1.tick = process_missing_blocks_cycle-Forward w1 in
      let u : World = record m.1 { slept = config.poll_interval ∷ m.1.slept } in
      elim (Bool-cases (env.terminated w.tick)) [
        | inl stop ↦ (ok tt, w1, rw (stop, index_from) refl)
        | inr go ↦ elim (Result-cases m.0) [
          | inr (bad, p) ↦ (err bad, m.1, rw (go, p, index_from) refl)
          | inl (true, p) ↦ (ok tt, m.1, rw (go, p, index_from) refl)
          | inl (false, p) ↦
              let before : w.tick + 1 ≤ limit = not_yet limit w.tick (told w.tick) go in
              rw (go, p, index_from)
                (index_from_stops limit fuel u told (omega arith) (omega arith))
        ]
      ]

  -- If the service is told to stop from the question `limit` on, then its loop ends, whatever the
  -- node answers and whenever a statement is refused: fuel for one round more than there are
  -- questions up to `limit` is enough.
  pub index_stops :
      (limit fuel : ℕ) (w : World)
      → ((t : ℕ) → limit ≤ t → env.terminated t ≡ true)
      → limit + 1 ≤ fuel + w.tick
      → 1 ≤ fuel
      → (r : Result Report (Unit {0})) × (w' : World) × (index env config fuel w ≡ some (r, w'))
  unfolding index
  index_stops limit fuel w told enough h =
      let m = get_current_metadata env config w in
      let later : w.tick ≤ m.1.tick = get_current_metadata-Forward w in
      elim (Result-cases m.0) [
        | inr (bad, p) ↦ (err bad, m.1, rw (p, index) refl)
        | inl (metadata, p) ↦ rw (p, index) (index_from_stops limit fuel m.1 told (omega arith) h)
      ]
