-- ===== src/Initialization/Recent.antt =====
-- src/indexer/lib.rs, `setup_backfill_for_existing_database`: the blocks between the two services.
use fossil_headers_db.Prelude.{
  ℤ, pos, ◌-ℤ◌, ◌≤ℤ◌, ◌<ℤ◌, ltb_ℤ, ◌≡◌, refl, ap, true, none, some, arith, unwrap_or, ◌+◌, List, [],
  ◌∷◌, map,
}
use fossil_headers_db.Prelude.Machine.{sub_i64}
use fossil_headers_db.Result.{ok}
use fossil_headers_db.Types
use fossil_headers_db.Types.{BlockNumber}
use fossil_headers_db.Types.RoundTrip.{IsValid}
use fossil_headers_db.Database.Rows.{IndexMetadataDto, stored}
use fossil_headers_db.Database.Action.{Env, World, begin, execute, commit}
use fossil_headers_db.Repositories.Metadata.{
  first_row, update_metadata, with_latest, with_backfilling_block,
  update_backfilling_block_number_query,
}
use fossil_headers_db.Initialization.{
  backfill_from_existing, with_backfill_enabled, setup_backfill_for_existing_database,
}

thousand_back :
    (latest : BlockNumber)
    → IsValid latest
    → pos 1000 <ℤ latest.value
    → (backfill_from_existing latest none).value ≡ latest.value -ℤ pos 1000
unfolding backfill_from_existing Types.sub sub_i64
thousand_back latest valid large = ground arith

first_row-map :
    {A : Type 0} (f : A → A) (rows : List A) (row : A)
    → first_row (map f rows) ≡ ok row
    → (r : A) × (first_row rows ≡ ok r) × (row ≡ f r)
unfolding first_row
first_row-map f [] row h = absurd cc
first_row-map f (r ∷ rows) row h = (r, refl, cc)

module _ (env : Env) where
  -- The updates of a setup that succeeds, where the recorded latest block is behind.
  setup_tables :
      (m : IndexMetadataDto) (latest : BlockNumber) (w : World)
      → ltb_ℤ m.current_latest_block_number latest.value ≡ true
      → let (r, w') = setup_backfill_for_existing_database env m latest none w in
        (c : IndexMetadataDto)
        → r ≡ ok c
        → w'.tables
          ≡ update_metadata (with_latest latest.value (env.now (w.tick + 1 + 1 + 1))) (
              update_metadata
                (with_backfilling_block
                  (backfill_from_existing latest none).value
                  (env.now (w.tick + 1 + 1)))
                (update_metadata (with_backfill_enabled (env.now (w.tick + 1))) w.tables))
  unfolding setup_backfill_for_existing_database begin execute commit
      update_backfilling_block_number_query
  setup_tables m latest w moved c h = ground arith

  -- The row that the services read behind such a setup.
  setup_row :
      (m c row : IndexMetadataDto) (latest : BlockNumber) (w w' : World)
      → m.current_latest_block_number <ℤ latest.value
      → setup_backfill_for_existing_database env m latest none w ≡ (ok c, w')
      → first_row w'.tables.index_metadata ≡ ok row
      → (row.is_backfilling ≡ true)
        × (row.indexing_starting_block_number ≡ pos 0)
        × (row.backfilling_block_number ≡ some (backfill_from_existing latest none).value)
        × (row.current_latest_block_number ≡ latest.value)
        × (w'.tables.blockheaders ≡ w.tables.blockheaders)
  unfolding update_metadata
  setup_row m c row latest w w' behind run read =
      let moved : ltb_ℤ m.current_latest_block_number latest.value ≡ true = ground arith in
      let done = setup_tables m latest w moved c (ap (λ r. r.0) run) in
      let left : w'.tables ≡ _ = rw (ap (λ r. r.1) run) at done in
      let (r, e, same) = first_row-map _ _ row (rw left at read) in
      let (r', e', same') = first_row-map _ _ r e in
      let (r'', e'', same'') = first_row-map _ _ r' e' in
      rw (left, same, same', same'') (refl, refl, refl, refl, refl)

  -- Where the backfill of an existing database is set up without an offset, the latest block is
  -- valid, above 1000 and above the recorded one, and the setup succeeds, then the row of the metadata
  -- that is read from the tables afterwards gives the batch service a range from block 0 that ends
  -- before each of the last thousand blocks, and records a latest block, from which the quick
  -- service goes on, that none of them is ahead of; and each of them is stored only if it was.
  pub setup_backfill_leaves_recent :
      (m c row : IndexMetadataDto) (latest : BlockNumber) (n : ℤ) (w w' : World)
      → IsValid latest
      → pos 1000 <ℤ latest.value
      → m.current_latest_block_number <ℤ latest.value
      → setup_backfill_for_existing_database env m latest none w ≡ (ok c, w')
      → first_row w'.tables.index_metadata ≡ ok row
      → (latest.value -ℤ pos 1000) <ℤ n
      → n ≤ℤ latest.value
      → (row.is_backfilling ≡ true)
        × (row.indexing_starting_block_number ≡ pos 0)
        × (unwrap_or row.backfilling_block_number row.current_latest_block_number <ℤ n)
        × (n ≤ℤ row.current_latest_block_number)
        × (stored n w'.tables.blockheaders ≡ stored n w.tables.blockheaders)
  setup_backfill_leaves_recent m c row latest n w w' valid large behind run read low high =
      let (enabled, starting, backfilling, moved, kept) =
        setup_row m c row latest w w' behind run read in
      (
        enabled,
        starting,
        (rw (backfilling, thousand_back latest valid large) low),
        (rw moved high),
        (rw kept refl),
      )
