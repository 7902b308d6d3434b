-- ===== src/Batch/Complete.antt =====
-- src/indexer/batch_service.rs: when a cycle reports that the backfill is complete, it is.
use fossil_headers_db.Prelude.{
  ℕ, ◌+◌, ℤ, ◌≤ℤ◌, ◌≡◌, refl, ap, inl, inr, Bool, true, false, not, ◌&&◌, List, [], ◌∷◌, map, arith,
  Bool-cases, Option-cases, is_empty, unwrap_or,
}
use fossil_headers_db.Result.{Result, ok, Result-cases}
use fossil_headers_db.Errors.{Report, row_not_found, pool_closed, pool_timed_out, database, other}
use fossil_headers_db.Types.{BlockNumber}
use fossil_headers_db.Config.Batch.{BatchIndexConfig}
use fossil_headers_db.Database.Rows.{IndexMetadataDto, Tables, stored, memb, between}
use fossil_headers_db.Database.Action.{Env, World, query, begin, execute, commit, continue, pure}
use fossil_headers_db.Repositories.Metadata.{
  with_backfilling, update_metadata, set_is_backfilling, first_row, found, get_index_metadata,
}
use fossil_headers_db.Batch.{
  get_current_metadata, find_missing_blocks_with_db, is_backfill_complete, mark_backfill_complete,
  update_backfilling_progress, finish_cycle, process_missing_blocks_cycle,
  process_missing_blocks_in_batches,
}
use fossil_headers_db.Batch.Missing.{IsBlock, block_values, find_missing_blocks-exact}

-- Every block from one number to another is stored.
abbrev pub Stored : ℤ → ℤ → Tables → Type 0
Stored a b t = (n : ℤ) → a ≤ℤ n → n ≤ℤ b → stored n t.blockheaders ≡ true

-- No row of the metadata says that a backfill is under way.
abbrev pub Finished : List IndexMetadataDto → Type 0
Finished [] = Unit {0}
Finished (m ∷ ms) = (m.is_backfilling ≡ false) × Finished ms

map-Finished :
    (now : ℕ) (ms : List IndexMetadataDto) → Finished (map (with_backfilling false now) ms)
map-Finished now [] = tt
map-Finished now (m ∷ ms) = (refl, map-Finished now ms)

module _ (env : Env) (config : BatchIndexConfig) where
  mark_backfill_complete-marks :
      (w : World)
      → let (r, w') = mark_backfill_complete env config w in
        (w'.tables.blockheaders ≡ w.tables.blockheaders)
        × (r ≡ ok tt → Finished w'.tables.index_metadata)
  unfolding mark_backfill_complete begin set_is_backfilling execute commit update_metadata
  mark_backfill_complete-marks w =
      ground (arith, map-Finished (env.now (w.tick + 1)) w.tables.index_metadata)

  update_backfilling_progress-rows :
      (n : ℤ) (w : World)
      → (update_backfilling_progress env config n w).1.tables.blockheaders ≡ w.tables.blockheaders
  unfolding update_backfilling_progress begin execute commit update_metadata
  update_backfilling_progress-rows n w = ground arith

  -- What a cycle promises where it says that it is complete.
  abbrev Completed : ℤ → ℤ → Result Report Bool × World → Type 0
  Completed s e m = m.0 ≡ ok true → Stored s e m.1.tables × Finished m.1.tables.index_metadata

  nothing_missing :
      (s e : ℤ) (w : World) (bs : List BlockNumber)
      → ((n : ℤ)
          → memb n (block_values bs) ≡ (between s e n && not (stored n w.tables.blockheaders)))
      → is_empty bs ≡ true
      → Stored s e w.tables
  unfolding block_values memb
  nothing_missing s e w [] exact h n low high =
      let fact : false ≡ (between s e n && not (stored n w.tables.blockheaders)) = exact n in
      ground (arith, fact)
  nothing_missing s e w (b ∷ bs) exact h n low high = cc

  marked-Completed :
      (s e : ℤ) (w : World)
      → Stored s e w.tables
      → Completed s e (
          continue
            (mark_backfill_complete env config w).0
            (λ _. pure true)
            (mark_backfill_complete env config w).1)
  marked-Completed s e w all =
      let (same, finished) = mark_backfill_complete-marks w in
      elim (Result-cases (mark_backfill_complete env config w).0) [
        | inl (done, p) ↦ rw p (λ h. ((λ n low high. rw same (all n low high)), finished p))
        | inr (bad, p) ↦ rw p (λ h. cc)
      ]

  is_backfill_complete-exact :
      (s e : ℤ) (w : World)
      → IsBlock s
      → IsBlock e
      → let (r, w') = is_backfill_complete env config s e w in
        (w'.tables ≡ w.tables) × (r ≡ ok true → Stored s e w.tables)
  unfolding is_backfill_complete
  is_backfill_complete-exact s e w hs he =
      let (same, exact) = find_missing_blocks-exact env config s e w hs he in
      elim (Result-cases (find_missing_blocks_with_db env config s e w).0) [
        | inl (bs, p) ↦ rw p (same, λ h. nothing_missing s e w bs (exact bs p) cc)
        | inr (bad, p) ↦ rw p (same, λ h. cc)
      ]

  finish_cycle-Completed :
      (s e : ℤ) (w : World) → IsBlock s → IsBlock e → Completed s e (finish_cycle env config s e w)
  unfolding finish_cycle
  finish_cycle-Completed s e w hs he =
      let (same, all) = is_backfill_complete-exact s e w hs he in
      let v : World = (is_backfill_complete env config s e w).1 in
      let u : World = (update_backfilling_progress env config s v).1 in
      let rows : u.tables.blockheaders ≡ v.tables.blockheaders =
        update_backfilling_progress-rows s v in
      elim (Result-cases (is_backfill_complete env config s e w).0) [
        | inr (bad, p) ↦ rw p (λ h. cc)
        | inl (false, p) ↦ rw p (λ h. cc)
        | inl (true, p) ↦ elim (Result-cases (update_backfilling_progress env config s v).0) [
          | inr (bad, q) ↦ rw (p, q) (λ h. cc)
          | inl (done, q) ↦
              rw (p, q) (marked-Completed s e u (λ n low high. rw (rows, same) (all p n low high)))
        ]
      ]

  get_current_metadata-reads :
      (w : World) (m : IndexMetadataDto)
      → first_row w.tables.index_metadata ≡ ok m
      → let (r, w') = get_current_metadata env config w in
        (w'.tables ≡ w.tables) × ((m' : IndexMetadataDto) → r ≡ ok m' → m' ≡ m)
  unfolding get_current_metadata get_index_metadata query found
  get_current_metadata-reads w m row = elim (Option-cases (env.fault w.tick)) [
    | inr (row_not_found, p) ↦ rw p (refl, λ l h. cc)
    | inr (pool_closed, p) ↦ rw p (refl, λ l h. cc)
    | inr (pool_timed_out, p) ↦ rw p (refl, λ l h. cc)
    | inr (database x, p) ↦ rw p (refl, λ l h. cc)
    | inr (other x, p) ↦ rw p (refl, λ l h. cc)
    | inl fine ↦ rw (fine, row) (refl, λ l h. cc)
  ]

  cycle-Completed :
      (w : World) (m : IndexMetadataDto)
      → first_row w.tables.index_metadata ≡ ok m
      → IsBlock m.indexing_starting_block_number
      → IsBlock (unwrap_or m.backfilling_block_number m.current_latest_block_number)
      → Completed m.indexing_starting_block_number
          (unwrap_or m.backfilling_block_number m.current_latest_block_number)
          (process_missing_blocks_cycle env config w)
  unfolding process_missing_blocks_cycle
  cycle-Completed w m row hs he =
      let (same, reads) = get_current_metadata-reads w m row in
      let v : World = (get_current_metadata env config w).1 in
      let s : ℤ = m.indexing_starting_block_number in
      let e : ℤ = unwrap_or m.backfilling_block_number m.current_latest_block_number in
      let (kept, exact) = find_missing_blocks-exact env config s e v hs he in
      let u : World = (find_missing_blocks_with_db env config s e v).1 in
      elim (Result-cases (get_current_metadata env config w).0) [
        | inr (bad, p) ↦ rw p (λ h. cc)
        | inl (m', p) ↦
            let same_m : m' ≡ m = reads m' p in
            rw (p, same_m)
              (elim (Result-cases (find_missing_blocks_with_db env config s e v).0) [
                | inr (bad, q) ↦ rw q (λ h. cc)
                | inl (bs, q) ↦ elim (Bool-cases (is_empty bs)) [
                  | inl none_left ↦
                      rw (q, none_left)
                        (marked-Completed s e u (λ n low high.
                          rw kept (nothing_missing s e v bs (exact bs q) none_left n low high)))
                  | inr some_left ↦
                      rw (q, some_left)
                        (elim (Result-cases (process_missing_blocks_in_batches env config bs u).0) [
                          | inr (bad, o) ↦ rw o (λ h. cc)
                          | inl (done, o) ↦ rw o (
                              finish_cycle-Completed s e
                                (process_missing_blocks_in_batches env config bs u).1 hs he)
                        ])
                ]
              ])
      ]

  -- Where a cycle reports that the backfill is complete, and the range that the first row of the
  -- metadata gave at its start lies between 0 and 2^62, all blocks of that range are stored, and no
  -- row of the metadata says any more that a backfill is under way.
  pub process_missing_blocks_cycle_complete :
      (w w' : World) (m : IndexMetadataDto)
      → first_row w.tables.index_metadata ≡ ok m
      → IsBlock m.indexing_starting_block_number
      → IsBlock (unwrap_or m.backfilling_block_number m.current_latest_block_number)
      → process_missing_blocks_cycle env config w ≡ (ok true, w')
      → Stored m.indexing_starting_block_number
          (unwrap_or m.backfilling_block_number m.current_latest_block_number)
          w'.tables
        × Finished w'.tables.index_metadata
  process_missing_blocks_cycle_complete w w' m row hs he h =
      rw (ap (λ r. r.1) h) at (cycle-Completed w m row hs he (ap (λ r. r.0) h))
