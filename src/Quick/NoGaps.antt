-- ===== src/Quick/NoGaps.antt =====
-- src/indexer/quick_service.rs: the rounds, the cycle and the loop keep the invariant, whatever the
-- node answers and whenever the database fails.
use fossil_headers_db.Prelude.{
  ℕ, zero, suc, ◌+◌, ◌*◌, ◌^◌, ℤ, pos, ◌≤ℤ◌, ◌<ℤ◌, ◌≡◌, refl, ◌∙◌, inl, inr, List, ◌∷◌, some, arith,
  Bool-cases, Option-cases,
}
use fossil_headers_db.Prelude.Machine.{add_i64}
use fossil_headers_db.Result.{Result, ok, is_ok, Result-cases}
use fossil_headers_db.Errors.{Report, row_not_found, pool_closed, pool_timed_out, database, other}
use fossil_headers_db.Types
use fossil_headers_db.Types.{BlockNumber, from_trusted, largest}
use fossil_headers_db.Types.RoundTrip.{IsValid}
use fossil_headers_db.Config.Quick.{QuickIndexConfig}
use fossil_headers_db.Database.Rows.{IndexMetadataDto}
use fossil_headers_db.Database.Action.{Env, World, query, load_terminate, ask_finalized, sleep}
use fossil_headers_db.Repositories.Metadata.{get_index_metadata, first_row, found}
use fossil_headers_db.Blocks.Ranges.{IsNear}
use fossil_headers_db.Quick.{
  calculate_ending_block, fetch_and_store_blocks, log_indexing_success, apply_exponential_backoff,
  retry_from, retry_with_backoff, index_block_range, index_new_blocks, has_new_blocks,
  wait_for_new_blocks, get_last_indexed_block, get_latest_finalized_block, process_indexing_cycle,
  index,
}
use fossil_headers_db.Quick.Attempt.{fetch_and_store_blocks-Attempted}
use fossil_headers_db.Quick.Invariant.{
  NoGaps, Kept, ReportsValid, calculate_ending_block_bounds, Attempted-Kept,
}

module _ (env : Env) (config : QuickIndexConfig) (range : List ℤ) where
  pub log_indexing_success-tables :
      (w : World) → (log_indexing_success env config w).1.tables ≡ w.tables
  unfolding log_indexing_success query
  log_indexing_success-tables w = ground arith

  retry_from-Kept :
      (start l e : ℤ) (near_l : IsNear l) (near_e : IsNear e) (up : l ≤ℤ e) (left round : ℕ)
      (w : World)
      → Kept start l w.tables
      → Kept start l (retry_from env config left round range (add_i64 l (pos 1)) e w).1.tables
  unfolding retry_from load_terminate apply_exponential_backoff sleep
  retry_from-Kept start l e near_l near_e up zero round w kept = kept
  retry_from-Kept start l e near_l near_e up (suc left) round w kept =
      let w1 : World = record w { tick = w.tick + 1 } in
      let m : Result Report (Unit {0}) × World =
        fetch_and_store_blocks env config range (add_i64 l (pos 1)) e w1 in
      let after : Kept start l m.1.tables =
        Attempted-Kept start l e near_l near_e up w1 m.1
          (fetch_and_store_blocks-Attempted env config range (add_i64 l (pos 1)) e w1) kept in
      elim (Bool-cases (env.terminated w.tick)) [
        | inl stop ↦ rw stop kept
        | inr go ↦ elim (Bool-cases (is_ok m.0)) [
          | inl done ↦ rw (go, done) (rw (log_indexing_success-tables m.1) after)
          | inr failed ↦
              rw (go, failed)
                (retry_from-Kept start l e near_l near_e up left (round + 1)
                  (record m.1 { slept = (round ^ 2 * 5 * 1000) ∷ m.1.slept }) after)
        ]
      ]

module _ (env : Env) (config : QuickIndexConfig) (start : ℤ) (valid : ReportsValid env) where
  index_new_blocks-Kept :
      (l : ℤ) (b : BlockNumber) (w : World)
      → IsNear l
      → l <ℤ b.value
      → IsValid b
      → Kept start l w.tables
      → Kept start l (index_new_blocks env config l b w).1.tables
  unfolding index_new_blocks index_block_range retry_with_backoff
  index_new_blocks-Kept l b w near_l new ok_b kept =
      let bounds = calculate_ending_block_bounds env config l b near_l.0 new ok_b.1 in
      retry_from-Kept env config _ start l (calculate_ending_block env config l b) near_l
        (omega arith, omega arith) bounds.0 config.max_retries 0 w kept

  -- The two reads change no table, and the first one reads the recorded block.
  pub get_last_indexed_block-reads :
      (w : World)
      → let (r, w') = get_last_indexed_block env config w in
        (w'.tables ≡ w.tables)
        × ((l : ℤ)
            → r ≡ ok l
            → (m : IndexMetadataDto) × (first_row w.tables.index_metadata ≡ ok m)
              × (m.current_latest_block_number ≡ l))
  unfolding get_last_indexed_block get_index_metadata query found
  get_last_indexed_block-reads w = elim (Option-cases (env.fault w.tick)) [
    | inr (row_not_found, p) ↦ rw p (refl, λ l h. cc)
    | inr (pool_closed, p) ↦ rw p (refl, λ l h. cc)
    | inr (pool_timed_out, p) ↦ rw p (refl, λ l h. cc)
    | inr (database x, p) ↦ rw p (refl, λ l h. cc)
    | inr (other x, p) ↦ rw p (refl, λ l h. cc)
    | inl fine ↦ elim (Result-cases (first_row w.tables.index_metadata)) [
      | inl (m, q) ↦ rw (fine, q) (refl, λ l h. (m, refl, ground arith))
      | inr (row_not_found, q) ↦ rw (fine, q) (refl, λ l h. cc)
      | inr (pool_closed, q) ↦ rw (fine, q) (refl, λ l h. cc)
      | inr (pool_timed_out, q) ↦ rw (fine, q) (refl, λ l h. cc)
      | inr (database x, q) ↦ rw (fine, q) (refl, λ l h. cc)
      | inr (other x, q) ↦ rw (fine, q) (refl, λ l h. cc)
    ]
  ]

  pub get_latest_finalized_block-reads :
      (w : World)
      → let (r, w') = get_latest_finalized_block env config w in
        (w'.tables ≡ w.tables) × ((b : BlockNumber) → r ≡ ok b → IsValid b)
  unfolding get_latest_finalized_block ask_finalized
  get_latest_finalized_block-reads w = elim (Result-cases (env.finalized w.tick)) [
    | inl (b, p) ↦ rw p (refl, λ c h. valid w.tick c (p ∙ cc))
    | inr (e, p) ↦ rw p (refl, λ c h. cc)
  ]

  -- If the node reports valid finalized blocks only, then one cycle, whether it succeeds or fails,
  -- keeps the invariant that from `start` to the recorded latest block no block is missing.
  pub process_indexing_cycle-NoGaps :
      (w : World)
      → NoGaps start w.tables
      → NoGaps start (process_indexing_cycle env config w).1.tables
  unfolding process_indexing_cycle has_new_blocks wait_for_new_blocks sleep
  process_indexing_cycle-NoGaps w gaps =
      let (same, reads) = get_last_indexed_block-reads w in
      let v : World = (get_last_indexed_block env config w).1 in
      let (same', valid_b) = get_latest_finalized_block-reads v in
      let u : World = (get_latest_finalized_block env config v).1 in
      let still : u.tables ≡ w.tables = same' ∙ same in
      elim (Result-cases (get_last_indexed_block env config w).0) [
        | inr (e, p) ↦ rw p (rw same gaps)
        | inl (l, p) ↦ elim (Result-cases (get_latest_finalized_block env config v).0) [
          | inr (e, q) ↦ rw (p, q) (rw still gaps)
          | inl (b, q) ↦
              let (m, row, at_l) = reads l p in
              elim (Bool-cases (Types.lt (from_trusted l) b)) [
                | inr nothing_new ↦ rw (p, q, nothing_new) (rw still gaps)
                | inl new ↦
                    rw (p, q, new)
                      (index_new_blocks-Kept l b u (rw at_l at (gaps.near m row)) (ground arith)
                        (valid_b b q)
                        (rw still (gaps, λ n low high. gaps.covered m row n low (rw at_l high)))).0
              ]
        ]
      ]

  -- If the node reports valid finalized blocks only and the invariant holds at first, then it holds
  -- where the service's loop has ended, with success or an error: from `start` to the recorded
  -- latest block no block is missing.
  pub index-NoGaps :
      (fuel : ℕ) (w w' : World) (r : Result Report (Unit {0}))
      → NoGaps start w.tables
      → index env config fuel w ≡ some (r, w')
      → NoGaps start w'.tables
  unfolding index load_terminate
  index-NoGaps zero w w' r gaps h = cc
  index-NoGaps (suc fuel) w w' r gaps h =
      let w1 : World = record w { tick = w.tick + 1 } in
      let m : Result Report (Unit {0}) × World = process_indexing_cycle env config w1 in
      let after : NoGaps start m.1.tables = process_indexing_cycle-NoGaps w1 gaps in
      elim (Bool-cases (env.terminated w.tick)) [
        | inl stop ↦ let e : w1 ≡ w' = cc (rw (stop, index) at h) in rw (← e) gaps
        | inr go ↦ elim (Result-cases m.0) [
          | inr (bad, p) ↦ let e : m.1 ≡ w' = cc (rw (go, p, index) at h) in rw (← e) after
          | inl (done, p) ↦ index-NoGaps fuel m.1 w' r after (rw (go, p, index) at h)
        ]
      ]
