-- ===== src/Quick/Hashes.antt =====
-- src/indexer/quick_service.rs and src/rpc/mod.rs: blocks are requested without their transactions,
-- so the node sends the hashes of these; what becomes of a service that is to index transactions.
use fossil_headers_db.Prelude.{
  ℕ, zero, suc, ◌+◌, ◌*◌, ◌^◌, ℤ, pos, ◌<ℤ◌, ◌≡◌, refl, ◌∙◌, inl, inr, true, false, List, [], ◌∷◌,
  none, arith, Bool-cases, Option-cases, is_empty,
}
use fossil_headers_db.Prelude.Machine.{add_i64}
use fossil_headers_db.Result.{Result, ok, err, Result-cases}
use fossil_headers_db.Errors.{Report, blockchain, sqlx}
use fossil_headers_db.Types
use fossil_headers_db.Types.{BlockNumber, from_trusted}
use fossil_headers_db.Config.Quick.{QuickIndexConfig}
use fossil_headers_db.Rpc.{BlockHeader}
use fossil_headers_db.Database.Rows.{IndexMetadataDto}
use fossil_headers_db.Database.Action.{
  Env, World, begin, ask_blocks, query, load_terminate, sleep, sleep_millis, ask_finalized,
}
use fossil_headers_db.Repositories.Headers.{insert_block_header_query}
use fossil_headers_db.Repositories.Metadata.{first_row, found, get_index_metadata}
use fossil_headers_db.Blocks.{sort_headers}
use fossil_headers_db.Blocks.Sorted.{All, sort_headers-All}
use fossil_headers_db.Quick.{
  insert_headers, store_block_headers, fetch_block_headers, fetch_and_store_blocks, gave_up,
  apply_exponential_backoff, retry_from, retry_with_backoff, index_block_range, index_new_blocks,
  has_new_blocks, get_last_indexed_block, get_latest_finalized_block, process_indexing_cycle,
  calculate_ending_block,
}
use fossil_headers_db.Quick.Responses.{join_all, process_rpc_responses, verify_order}
use fossil_headers_db.Quick.Transaction.{Stores, verify_order-sorts, store_block_headers-Stores}
use fossil_headers_db.Quick.SentHashes.{
  HasHash, SendsHashes, join_all-AllAnswers, process_rpc_responses-All, format_hashes,
  verify_order_nonempty,
}

module _ (env : Env) (config : QuickIndexConfig) (indexes : config.should_index_txs ≡ true) where
  insert_headers-fails :
      (hs : List BlockHeader) (w : World)
      → All HasHash hs
      → is_empty hs ≡ false
      → (e : Report) × ((insert_headers env config hs w).0 ≡ err e)
  unfolding insert_headers insert_block_header_query
  insert_headers-fails [] w sent some_left = cc
  insert_headers-fails (h ∷ hs) w (sent, rest) some_left =
      let (bad, p) = format_hashes h hs sent in (blockchain bad, rw (indexes, p) refl)

  -- A store that fails has changed no table.
  failed_tables :
      (hs : List BlockHeader) (ending : ℤ) (w : World) (m : Result Report (Unit {0}) × World)
      (e : Report)
      → m.0 ≡ err e
      → Stores hs ending w m
      → m.1.tables ≡ w.tables
  failed_tables hs ending w (ok a, v) e h stores = cc
  failed_tables hs ending w (err bad, v) e h stores = stores

  store_block_headers-fails :
      (hs : List BlockHeader) (ending : ℤ) (w : World)
      → All HasHash hs
      → (e : Report) × ((store_block_headers env config hs ending w).0 ≡ err e)
  unfolding store_block_headers begin
  store_block_headers-fails hs ending w sent = elim (Result-cases (verify_order hs ending)) [
    | inr (bad, p) ↦ (bad, rw p refl)
    | inl (sorted, p) ↦ elim (Option-cases (env.fault w.tick)) [
      | inr (bad, q) ↦ (sqlx bad, rw (p, q) refl)
      | inl fine ↦
          let v : World = record w { tick = w.tick + 1; pending = w.tables } in
          let same : sorted ≡ sort_headers hs = verify_order-sorts hs sorted ending p in
          let (bad, q) =
            insert_headers-fails sorted v (rw same (sort_headers-All HasHash hs sent))
              (verify_order_nonempty hs sorted ending p) in
          (bad, rw (p, fine, q) refl)
    ]
  ]

  -- An attempt at a range fails and changes no table.
  abbrev Fails : {A : Type 0} → World → Result Report A × World → Type 0
  Fails w m = (e : Report) × (m.0 ≡ err e) × (m.1.tables ≡ w.tables)

  fetch_and_store_blocks-Fails :
      (range : List ℤ) (s e : ℤ) (w : World)
      → SendsHashes env
      → Fails w (fetch_and_store_blocks env config range s e w)
  unfolding fetch_and_store_blocks fetch_block_headers ask_blocks
  fetch_and_store_blocks-Fails range s e w sends =
      let v : World = record w { tick = w.tick + 1 } in
      elim (Result-cases (join_all (env.fetch w.tick) range)) [
        | inr (bad, p) ↦ rw p (bad, refl, refl)
        | inl (rs, p) ↦ elim (Result-cases (process_rpc_responses rs s e)) [
          | inr (bad, q) ↦ rw (p, q) (bad, refl, refl)
          | inl (hs, q) ↦
              let sent : All HasHash hs =
                process_rpc_responses-All rs s e hs
                  (join_all-AllAnswers (env.fetch w.tick) range rs (sends w.tick) p) q in
              let (bad, o) = store_block_headers-fails hs e v sent in
              let same : (store_block_headers env config hs e v).1.tables ≡ w.tables =
                failed_tables hs e v (store_block_headers env config hs e v) bad o
                  (store_block_headers-Stores env config hs e v) in
              rw (p, q, o) (bad, refl, same)
        ]
      ]

  retry_from-Fails :
      (left round : ℕ) (range : List ℤ) (s e : ℤ) (w : World)
      → SendsHashes env
      → let (r, w') = retry_from env config left round range s e w in
        (r ≡ err gave_up) × (w'.tables ≡ w.tables)
  unfolding retry_from load_terminate apply_exponential_backoff sleep sleep_millis
  retry_from-Fails zero round range s e w sends = (refl, refl)
  retry_from-Fails (suc left) round range s e w sends =
      let w1 : World = record w { tick = w.tick + 1 } in
      let m : Result Report (Unit {0}) × World = fetch_and_store_blocks env config range s e w1 in
      let u : World = record m.1 { slept = (round ^ 2 * 5 * 1000) ∷ m.1.slept } in
      let (bad, p, same) = fetch_and_store_blocks-Fails range s e w1 sends in
      let (gave, kept) = retry_from-Fails left (round + 1) range s e u sends in
      elim (Bool-cases (env.terminated w.tick)) [
        | inl stop ↦ rw stop (refl, refl)
        | inr go ↦ rw (go, p) (gave, kept ∙ same)
      ]

  -- Where the quick service is to index transactions, but each block that the node sends carries
  -- the hash of its first transaction in its place, as a node answers a request without
  -- transactions: a cycle that can read the metadata, and whose finalized block is above the recorded
  -- one, gives up after its retries with an error and changes no table.
  pub process_indexing_cycle-gave_up :
      (w : World) (m : IndexMetadataDto) (b : BlockNumber)
      → SendsHashes env
      → first_row w.tables.index_metadata ≡ ok m
      → env.fault w.tick ≡ none
      → env.finalized (w.tick + 1) ≡ ok b
      → m.current_latest_block_number <ℤ b.value
      → let (r, w') = process_indexing_cycle env config w in
        (r ≡ err gave_up) × (w'.tables ≡ w.tables)
  unfolding process_indexing_cycle get_last_indexed_block get_index_metadata query found
      get_latest_finalized_block ask_finalized has_new_blocks index_new_blocks index_block_range
      retry_with_backoff
  process_indexing_cycle-gave_up w m b sends row fine latest new =
      let l : ℤ = m.current_latest_block_number in
      let v : World = record w { tick = w.tick + 1 + 1 } in
      let behind : Types.lt (from_trusted l) b ≡ true = ground arith in
      rw (fine, row, latest, behind)
        (retry_from-Fails config.max_retries 0 _ (add_i64 l (pos 1))
          (calculate_ending_block env config l b) v sends)
