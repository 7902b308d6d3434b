-- ===== src/Tests/Services.antt =====
-- Runs of the two services, and the theorems about them.
use fossil_headers_db.Database.Rows.{IndexMetadataDto}
use fossil_headers_db.Repositories.Metadata.{first_row}
use fossil_headers_db.Prelude.{
  ◌-ℤ◌, ◌<ℤ◌, ◌≤ℤ◌, ℕ, ◌≤◌, not, ◌&&◌, ℤ, pos, ◌≡◌, refl, true, [], ◌∷◌, Option, none, some, arith,
}
use fossil_headers_db.Result.{Result, ok}
use fossil_headers_db.Text.{text, hex_i64}
use fossil_headers_db.Errors.{Report}
use fossil_headers_db.Types.{from_trusted}
use fossil_headers_db.Database.Rows.{stored}
use fossil_headers_db.Database.Action.{World}
use fossil_headers_db.Repositories.Metadata.{first_row}
use fossil_headers_db.Quick.{process_indexing_cycle, index}
use fossil_headers_db.Prelude.Machine.{add_i64, sub_i64, wrap_i64, to_bits, of_bits}
use fossil_headers_db.Result.{traverse}
use fossil_headers_db.Text.{
  trim_0x, digits, from_digit, from_str_radix, scan_signed, scan, to_digit, show_i64, show_nat,
}
use fossil_headers_db.Types.{sub_self}
use fossil_headers_db.Utils.{convert_hex_string_to_i64}
use fossil_headers_db.Database.Rows.{upsert_header, upsert_headers, row_of}
use fossil_headers_db.Database.Action.{
  load_terminate, query, ask_finalized, ask_blocks, ask_tasks, execute, begin, commit, sleep,
  sleep_millis,
}
use fossil_headers_db.Repositories.Convert.{format_headers, convert_rpc_blockheader_to_dto, dto_of}
use fossil_headers_db.Repositories.Headers.{put_headers, insert_block_header_only_query}
use fossil_headers_db.Repositories.Metadata.{
  get_index_metadata, found, update_metadata, update_latest_quick_index_block_number_query,
}
use fossil_headers_db.Repositories.Lookup.{block_key}
use fossil_headers_db.Blocks.{inclusive, numbered, expected_count, sort_headers, insert_header}
use fossil_headers_db.Quick.{
  get_last_indexed_block, get_latest_finalized_block, has_new_blocks, index_new_blocks,
  calculate_ending_block, index_block_range, retry_with_backoff, retry_from, fetch_and_store_blocks,
  fetch_block_headers, store_block_headers, insert_headers, finish_store, verify_blocks_stored,
  count_between, count_unstored, expected_blocks, log_indexing_success, max_number,
  wait_for_new_blocks,
}
use fossil_headers_db.Quick.Responses.{
  join_all, process_rpc_responses, collect, verify_order, first_number, last_number, check_sequence,
}
use fossil_headers_db.Quick.Invariant.{NoGaps, ReportsValid}
use fossil_headers_db.Quick.NoGaps.{process_indexing_cycle-NoGaps, index-NoGaps}
use fossil_headers_db.Tests.{healthy, quick, batch, metadata, world}
use fossil_headers_db.Batch.{
  process_missing_blocks_cycle, process_missing_blocks_in_batches, fill_batches,
  fill_missing_blocks, fill_from, try_fetch_missing_blocks, fetch_specific_blocks, store_gap_blocks,
  get_current_metadata, find_missing_blocks_with_db, find_from, find_chunk, unstored,
  is_backfill_complete, mark_backfill_complete, update_backfilling_progress, finish_cycle,
}
use fossil_headers_db.Batch.Responses.{
  fetch_tasks, process_specific_block_responses, process_single_block_response,
  validate_block_header, check_number, add_response, chunks,
}
use fossil_headers_db.Batch.Missing.{block_values, find_missing_blocks-finds}
use fossil_headers_db.Batch.Complete
use fossil_headers_db.Batch.Complete.{Finished, process_missing_blocks_cycle_complete}
use fossil_headers_db.Database.Rows.{memb, between}
use fossil_headers_db.Repositories.Metadata.{set_is_backfilling}
use fossil_headers_db.Repositories.Metadata.{update_backfilling_block_number_query}
use fossil_headers_db.Types.{sub}
use fossil_headers_db.Prelude.{unwrap_or}
use fossil_headers_db.Initialization.{
  backfill_from_existing, configured, setup_backfill_for_existing_database,
}
use fossil_headers_db.Initialization.Recent.{setup_backfill_leaves_recent}
use fossil_headers_db.System.{Run, stopped, quick_cycle, batch_cycle, tool_filled, Run-NoGaps}
use fossil_headers_db.Commands.{fill_gaps}
use fossil_headers_db.Quick.Machine.{view, Step, Steps}
use fossil_headers_db.Quick.Refinement.{IsNearView, process_indexing_cycle-Step, index-Steps}
use fossil_headers_db.Quick.Ending.{index_ends}
use fossil_headers_db.Batch.Keeping.{Grows, process_missing_blocks_cycle-Grows}
use fossil_headers_db.Batch.Filling.{Fills, fill_missing_blocks-Fills}

world-NoGaps : NoGaps (pos 5) world.tables
unfolding first_row stored
world-NoGaps = record { near = λ m h. ground arith; covered = λ m h n low high. ground arith }

healthy-ReportsValid : ReportsValid healthy
healthy-ReportsValid t b h = ground arith

process_indexing_cycle-NoGaps_example :
    NoGaps (pos 5) (process_indexing_cycle healthy quick world).1.tables
process_indexing_cycle-NoGaps_example =
    process_indexing_cycle-NoGaps healthy quick (pos 5) healthy-ReportsValid world world-NoGaps

-- Where the service has ended; it has stored the blocks 6, 7 and 8.

abbrev ended : Option (Result Report (Unit {0}) × World) → World
ended none = world
ended (some (r, w)) = w

index_run : index healthy quick 9 world ≡ some (ok tt, ended (index healthy quick 9 world))
unfolding index load_terminate process_indexing_cycle get_last_indexed_block get_index_metadata
    query first_row found get_latest_finalized_block ask_finalized has_new_blocks index_new_blocks
    calculate_ending_block sub_self add_i64 sub_i64 index_block_range inclusive numbered
    retry_with_backoff retry_from fetch_and_store_blocks fetch_block_headers ask_blocks join_all
    process_rpc_responses expected_count collect convert_hex_string_to_i64 trim_0x text hex_i64
    digits from_digit to_bits from_str_radix scan_signed scan to_digit store_block_headers
    verify_order first_number last_number check_sequence sort_headers insert_header block_key
    insert_headers insert_block_header_only_query format_headers traverse
    convert_rpc_blockheader_to_dto dto_of show_i64 show_nat execute put_headers upsert_headers
    upsert_header row_of finish_store update_latest_quick_index_block_number_query update_metadata
    commit begin verify_blocks_stored count_between count_unstored expected_blocks stored
    log_indexing_success max_number wait_for_new_blocks sleep sleep_millis wrap_i64 of_bits
index_run = refl

run_stores_all :
    let t = (ended (index healthy quick 9 world)).tables in
    (stored (pos 6) t.blockheaders ≡ true) × (stored (pos 8) t.blockheaders ≡ true)
unfolding index load_terminate process_indexing_cycle get_last_indexed_block get_index_metadata
    query first_row found get_latest_finalized_block ask_finalized has_new_blocks index_new_blocks
    calculate_ending_block sub_self add_i64 sub_i64 index_block_range inclusive numbered
    retry_with_backoff retry_from fetch_and_store_blocks fetch_block_headers ask_blocks join_all
    process_rpc_responses expected_count collect convert_hex_string_to_i64 trim_0x text hex_i64
    digits from_digit to_bits from_str_radix scan_signed scan to_digit store_block_headers
    verify_order first_number last_number check_sequence sort_headers insert_header block_key
    insert_headers insert_block_header_only_query format_headers traverse
    convert_rpc_blockheader_to_dto dto_of show_i64 show_nat execute put_headers upsert_headers
    upsert_header row_of finish_store update_latest_quick_index_block_number_query update_metadata
    commit begin verify_blocks_stored count_between count_unstored expected_blocks stored
    log_indexing_success max_number wait_for_new_blocks sleep sleep_millis wrap_i64 of_bits
run_stores_all = (refl, refl)

index-NoGaps_example : NoGaps (pos 5) (ended (index healthy quick 9 world)).tables
index-NoGaps_example =
    index-NoGaps healthy quick (pos 5) healthy-ReportsValid 9 world
      (ended (index healthy quick 9 world)) (ok tt) world-NoGaps index_run

world-IsNearView : IsNearView (view world.tables)
world-IsNearView l h = ground arith

process_indexing_cycle-Step_example :
    Step healthy (view world.tables) (view (process_indexing_cycle healthy quick world).1.tables)
process_indexing_cycle-Step_example =
    process_indexing_cycle-Step healthy quick healthy-ReportsValid world world-IsNearView

index-Steps_example :
    Steps healthy (view world.tables) (view (ended (index healthy quick 9 world)).tables)
index-Steps_example =
    index-Steps healthy quick healthy-ReportsValid 9 world (ended (index healthy quick 9 world))
      (ok tt) world-IsNearView index_run

missing_run : find_missing_blocks_with_db healthy batch (pos 2) (pos 5) world ≡ (
  ok (from_trusted (pos 2) ∷ from_trusted (pos 3) ∷ from_trusted (pos 4) ∷ []),
  record world { tick = 1 },
)
unfolding find_missing_blocks_with_db find_from find_chunk unstored stored query inclusive numbered
    add_i64 sub_i64 wrap_i64 to_bits of_bits
missing_run = refl

find_missing_blocks-finds_example :
    (world.tables ≡ world.tables)
    × ((n : ℤ)
        → memb n
            (block_values (from_trusted (pos 2) ∷ from_trusted (pos 3) ∷ from_trusted (pos 4) ∷ []))
          ≡ (between (pos 2) (pos 5) n && not (stored n world.tables.blockheaders)))
find_missing_blocks-finds_example =
    find_missing_blocks-finds healthy batch (pos 2) (pos 5)
      (from_trusted (pos 2) ∷ from_trusted (pos 3) ∷ from_trusted (pos 4) ∷ []) world
      (record world { tick = 1 }) (omega arith, omega arith) (omega arith, omega arith) missing_run

cycle_run :
    process_missing_blocks_cycle healthy batch world
    ≡ (ok true, (process_missing_blocks_cycle healthy batch world).1)
unfolding process_missing_blocks_cycle get_current_metadata get_index_metadata query first_row found
    find_missing_blocks_with_db find_from find_chunk unstored stored inclusive numbered add_i64
    sub_i64 process_missing_blocks_in_batches chunks fill_batches fill_missing_blocks fill_from
    load_terminate try_fetch_missing_blocks fetch_specific_blocks fetch_tasks
    process_specific_block_responses process_single_block_response validate_block_header
    check_number add_response store_gap_blocks sort_headers insert_header block_key begin execute
    commit insert_block_header_only_query format_headers traverse convert_rpc_blockheader_to_dto
    dto_of put_headers upsert_headers upsert_header row_of convert_hex_string_to_i64 trim_0x text
    hex_i64 digits from_digit to_bits from_str_radix scan_signed scan to_digit is_backfill_complete
    mark_backfill_complete update_backfilling_progress finish_cycle set_is_backfilling
    update_metadata wrap_i64 of_bits ask_tasks
cycle_run = refl

first : first_row world.tables.index_metadata ≡ ok metadata
unfolding first_row
first = refl

process_missing_blocks_cycle_complete_example :
    let w' = (process_missing_blocks_cycle healthy batch world).1 in
    Complete.Stored (pos 2) (pos 5) w'.tables × Finished w'.tables.index_metadata
process_missing_blocks_cycle_complete_example =
    process_missing_blocks_cycle_complete healthy batch world
      (process_missing_blocks_cycle healthy batch world).1 metadata first (omega arith, omega arith)
      (omega arith, omega arith) cycle_run

process_missing_blocks_cycle-Grows_example :
    Grows world.tables (process_missing_blocks_cycle healthy batch world).1.tables
process_missing_blocks_cycle-Grows_example = process_missing_blocks_cycle-Grows healthy batch world

-- A cycle of the batch service, one of the quick service after it, and a run of the tool.
abbrev cycled : World
cycled =
    (process_indexing_cycle healthy quick (process_missing_blocks_cycle healthy batch world).1).1

abbrev after : World
after = (fill_gaps healthy (some (from_trusted (pos 2))) none cycled).1

both : Run healthy quick batch world after
both = batch_cycle (quick_cycle (tool_filled (some (from_trusted (pos 2))) none stopped))

Run-NoGaps_example : NoGaps (pos 5) after.tables
Run-NoGaps_example =
    Run-NoGaps healthy quick batch (pos 5) world after healthy-ReportsValid world-NoGaps both

healthy_stops : (t : ℕ) → 20 ≤ t → healthy.terminated t ≡ true
healthy_stops t h = ground arith

index_ends_example :
    (r : Result Report (Unit {0})) × (w' : World) × (index healthy quick 21 world ≡ some (r, w'))
index_ends_example = index_ends healthy quick 20 21 world healthy_stops (omega arith) (omega arith)

fill_missing_blocks-Fills_example :
    Fills
      (block_values (from_trusted (pos 3) ∷ from_trusted (pos 4) ∷ []))
      world
      (fill_missing_blocks healthy batch (from_trusted (pos 3) ∷ from_trusted (pos 4) ∷ []) world)
fill_missing_blocks-Fills_example =
    fill_missing_blocks-Fills healthy batch (from_trusted (pos 3) ∷ from_trusted (pos 4) ∷ []) world

-- The setup beside a node whose latest block is 5000.
abbrev set_up : World
set_up =
    (setup_backfill_for_existing_database healthy metadata (from_trusted (pos 5000)) none world).1

setup_run :
    setup_backfill_for_existing_database healthy metadata (from_trusted (pos 5000)) none world
    ≡ (ok (configured metadata (from_trusted (pos 5000)) (pos 4000)), set_up)
unfolding setup_backfill_for_existing_database backfill_from_existing sub sub_i64 wrap_i64 to_bits
    of_bits begin execute commit update_metadata update_backfilling_block_number_query
setup_run = refl

abbrev set_up_row : IndexMetadataDto
set_up_row = record metadata {
  current_latest_block_number = pos 5000;
  indexing_starting_block_number = pos 0;
  is_backfilling = true;
  backfilling_block_number = some (pos 4000);
  updated_at = 3;
}

setup_read : first_row set_up.tables.index_metadata ≡ ok set_up_row
unfolding first_row setup_backfill_for_existing_database backfill_from_existing sub sub_i64 wrap_i64
    to_bits of_bits begin execute commit update_metadata update_backfilling_block_number_query
setup_read = refl

setup_backfill_leaves_recent_example :
    (set_up_row.is_backfilling ≡ true)
    × (set_up_row.indexing_starting_block_number ≡ pos 0)
    × (unwrap_or set_up_row.backfilling_block_number set_up_row.current_latest_block_number
        <ℤ pos 4500)
    × (pos 4500 ≤ℤ set_up_row.current_latest_block_number)
    × (stored (pos 4500) set_up.tables.blockheaders ≡ stored (pos 4500) world.tables.blockheaders)
unfolding ◌-ℤ◌
setup_backfill_leaves_recent_example =
    setup_backfill_leaves_recent healthy metadata
      (configured metadata (from_trusted (pos 5000)) (pos 4000)) set_up_row
      (from_trusted (pos 5000)) (pos 4500) world set_up (omega arith, omega arith) (omega arith)
      (omega arith) setup_run setup_read (omega arith) (omega arith)
