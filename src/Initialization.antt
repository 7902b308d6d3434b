-- ===== src/Initialization.antt =====
-- src/indexer/lib.rs: the metadata that the services start with.
pub mod Completion
pub mod Recent
pub mod Services
use fossil_headers_db.Prelude.{
  ℕ, ℤ, pos, ltb_ℤ, leb_ℤ, eqb_ℤ, min_ℤ, Bool, true, false, not, ◌&&◌, List, [], ◌∷◌, ◌++◌, Option,
  none, some, unwrap_or, ltb, if◌then◌else◌,
}
use fossil_headers_db.Prelude.Machine.{i64_half, add_i64, sub_i64}
use fossil_headers_db.Text.{Text, text}
use fossil_headers_db.Errors.{
  BlockchainError, database_connection, database_query, internal, SqlxError, sqlx_message,
  from_report,
}
use fossil_headers_db.Types
use fossil_headers_db.Types.{BlockNumber, from_trusted}
use fossil_headers_db.Config.Indexing.{IndexingConfig}
use fossil_headers_db.Database.Rows.{IndexMetadataDto}
use fossil_headers_db.Database.Action.{
  Action, Env, ◌>>=◌, ◌>>◌, pure, raise, map_fault, query, begin, execute, commit, ask_finalized,
}
use fossil_headers_db.Repositories.Metadata.{
  get_index_metadata, set_initial_indexing_status, update_backfilling_block_number_query,
  update_metadata, with_latest,
}
use fossil_headers_db.Quick.{expected_blocks}
use fossil_headers_db.Db.{find_first_gap}

-- `i64::try_from(offset).unwrap_or(0)`.
abbrev pub offset_i64 : ℕ → ℤ
offset_i64 n = if ltb n i64_half then pos n else pos 0

-- Where the backfill of a new database and of an existing one starts.
unfoldable pub backfill_from_new : BlockNumber → Option ℕ → BlockNumber
backfill_from_new latest none =
    if ltb_ℤ (pos 0) latest.value then Types.sub latest (pos 1) else from_trusted (pos 0)
backfill_from_new latest (some offset) = Types.sub latest (offset_i64 offset)

unfoldable pub backfill_from_existing : BlockNumber → Option ℕ → BlockNumber
backfill_from_existing latest none =
    if ltb_ℤ (pos 1000) latest.value then Types.sub latest (pos 1000) else from_trusted (pos 0)
backfill_from_existing latest (some offset) = Types.sub latest (offset_i64 offset)

abbrev is_some : Option BlockNumber → Bool
is_some none = false
is_some (some b) = true

abbrev failed : Text → SqlxError → BlockchainError
failed what e = database_connection (what ++ sqlx_message e)

-- The two updates of the metadata's rows.
abbrev pub with_backfill_enabled : ℕ → IndexMetadataDto → IndexMetadataDto
with_backfill_enabled now m = record m {
  is_backfilling = true;
  indexing_starting_block_number = pos 0;
  updated_at = now;
}

abbrev pub with_backfill_from : ℤ → IndexMetadataDto → IndexMetadataDto
with_backfill_from n m = record m { backfilling_block_number = some n }

-- The metadata in memory after the setup.
unfoldable pub configured : IndexMetadataDto → BlockNumber → ℤ → IndexMetadataDto
configured metadata latest backfill_from_block = record metadata {
  is_backfilling = true;
  indexing_starting_block_number = pos 0;
  backfilling_block_number = some backfill_from_block;
  current_latest_block_number =
      if ltb_ℤ metadata.current_latest_block_number latest.value
      then latest.value
      else metadata.current_latest_block_number;
}

module _ (env : Env) where
  -- Whether the first blocks have a gap, where the backfill is said to be over.
  unfoldable pub has_sample_gap : IndexMetadataDto → BlockNumber → Action BlockchainError Bool
  has_sample_gap metadata latest =
      let starting = metadata.indexing_starting_block_number in
      let sample_end = min_ℤ latest.value (add_i64 starting (pos 10000)) in
      if (not metadata.is_backfilling
          && leb_ℤ (unwrap_or metadata.backfilling_block_number (pos 0)) starting)
        && ltb_ℤ starting sample_end
      then (do
        gap ← find_first_gap env (from_trusted starting) (from_trusted sample_end)
        pure (is_some gap))
      else pure false

  unfoldable pub should_setup_backfill_for_existing_db :
      IndexMetadataDto → BlockNumber → Action BlockchainError Bool
  should_setup_backfill_for_existing_db metadata latest =
      if not (eqb_ℤ metadata.indexing_starting_block_number (pos 0)) then pure true else do
        gap ← has_sample_gap metadata latest
        if gap
            then pure true
            else pure (ltb_ℤ (pos 1000) (sub_i64 latest.value metadata.current_latest_block_number))

  unfoldable pub setup_backfill_for_existing_database :
      IndexMetadataDto → BlockNumber → Option ℕ → Action BlockchainError IndexMetadataDto
  setup_backfill_for_existing_database metadata latest offset = do
    let backfill_from_block = (backfill_from_existing latest offset).value
    map_fault (failed (text "Failed to begin transaction: ")) (begin env)
    map_fault (failed (text "Failed to enable backfilling: "))
        (execute env (λ now. update_metadata (with_backfill_enabled now)))
    map_fault from_report (update_backfilling_block_number_query env backfill_from_block)
    (if ltb_ℤ metadata.current_latest_block_number latest.value
        then map_fault (failed (text "Failed to update latest block: "))
            (execute env (λ now. update_metadata (with_latest latest.value now)))
        else pure tt)
    map_fault (failed (text "Failed to commit backfill setup: ")) (commit env)
    pure (configured metadata latest backfill_from_block)

  -- The part for a database without metadata.
  unfoldable pub initialize_new : BlockNumber → Option ℕ → Action BlockchainError IndexMetadataDto
  initialize_new latest offset = do
    let backfill_from_block = (backfill_from_new latest offset).value
    map_fault from_report (set_initial_indexing_status env latest.value (pos 0) true)
    (if ltb_ℤ (pos 0) backfill_from_block
        then (do
          map_fault (failed (text "Failed to begin transaction: ")) (begin env)
          map_fault (failed (text "Failed to update backfilling_block_number: "))
              (execute env (λ now. update_metadata (with_backfill_from backfill_from_block)))
          map_fault (failed (text "Failed to commit transaction: ")) (commit env))
        else pure tt)
    stored ← map_fault from_report (get_index_metadata env)
    elim stored [
      | some metadata ↦ pure metadata
      | none ↦ raise (internal (text "Failed to get indexer metadata"))
    ]

  unfoldable pub initialize_index_metadata :
      IndexingConfig → Action BlockchainError IndexMetadataDto
  initialize_index_metadata config = do
    latest ← ask_finalized env
    found ← map_fault from_report (get_index_metadata env)
    elim found [
      | some metadata ↦ do
        needed ← should_setup_backfill_for_existing_db metadata latest
        if needed
            then setup_backfill_for_existing_database metadata latest config.start_block_offset
            else pure metadata
      | none ↦ initialize_new latest config.start_block_offset
    ]
