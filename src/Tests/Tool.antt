-- ===== src/Tests/Tool.antt =====
-- Runs of the command line tool, and the theorems about it.
use fossil_headers_db.Prelude.{pos, ◌≡◌, refl, true, false, ◌++◌, some, arith}
use fossil_headers_db.Result.{ok}
use fossil_headers_db.Text.{text, hex_i64}
use fossil_headers_db.Types.{BlockNumber, from_trusted}
use fossil_headers_db.Utils.RoundTrip.{convert-hex_i64}
use fossil_headers_db.Database.Rows.{stored}
use fossil_headers_db.Database.Action.{Env, World, query}
use fossil_headers_db.Prelude.Machine.{sub_i64}
use fossil_headers_db.Blocks.{numbered}
use fossil_headers_db.Quick.{expected_blocks}
use fossil_headers_db.Db.{
  get_db_pool, absent_of, find_first_gap, get_last_stored_blocknumber, read_last_stored,
}
use fossil_headers_db.Db.Retries.{IsLatest, get_last_stored_blocknumber_lem}
use fossil_headers_db.Prelude.{List, [], ◌∷◌, none}
use fossil_headers_db.Db.{
  find_missing_block_ranges, find_missing_blocks_in_range, find_missing_blocks_chunked,
}
use fossil_headers_db.Db.Pool.{Serves}
use fossil_headers_db.Db.Chunks.{find_missing_blocks_chunked_whole}
use fossil_headers_db.Db.Gaps.{SomeGap, FirstGap, find_first_gap-SomeGap, find_first_gap_least}
use fossil_headers_db.Database.Sql.{
  limit_one, order_by, number_rows, gap_groups, join_group, join_groups, group_by_grp,
  grouped_ranges,
}
use fossil_headers_db.Commands.{fill_gaps, update_blocks, update_from}
use fossil_headers_db.Commands.Keeping.{Keeps}
use fossil_headers_db.Commands.RunsKeeping.{EndsKept, fill_gaps-IsKeeping, update_from-EndsKept}
use fossil_headers_db.Commands.Updating.{update_blocks-Fills}
use fossil_headers_db.Commands.Healthy.{IsHealthy}
use fossil_headers_db.Commands.Filling.{Fills}
use fossil_headers_db.Commands.NullRows.{fill_gaps-Fills}
use fossil_headers_db.Tests.{empty_header_at, healthy, world}

abbrev serving : Env
serving = record healthy { terminated = λ t. false }

abbrev pooled : World
pooled = record world { connected = true }

serving-IsHealthy : IsHealthy serving
unfolding text hex_i64
serving-IsHealthy = record {
  answers = λ t b inside. (
    empty_header_at (text "0x" ++ hex_i64 b.value),
    refl,
    record {
      gas_limit = pos 30000000;
      gas_used = pos 21000;
      timestamp = pos 100;
      reads_number = convert-hex_i64 b.value inside.0 (omega arith);
      reads_gas_limit = convert-hex_i64 (pos 30000000) (omega arith) (omega arith);
      reads_gas_used = convert-hex_i64 (pos 21000) (omega arith) (omega arith);
      reads_timestamp = convert-hex_i64 (pos 100) (omega arith) (omega arith);
    },
  );
  serves = record { unfailing = λ t. refl; reachable = refl };
  uncut = λ t. refl;
  continuing = λ t. refl;
}

fill_gaps-Fills_example :
    Fills
      (pos 2)
      (pos 9)
      world
      (fill_gaps serving (some (from_trusted (pos 2))) (some (from_trusted (pos 9))) world)
fill_gaps-Fills_example =
    fill_gaps-Fills serving serving-IsHealthy (from_trusted (pos 2)) (from_trusted (pos 9)) world
      (λ t. refl) (omega arith) (omega arith, omega arith) (omega arith)

get_last_stored_blocknumber_lem_example :
    (get_last_stored_blocknumber healthy pooled ≡ read_last_stored healthy pooled)
    × ((b : BlockNumber) (w' : World)
        → get_last_stored_blocknumber healthy pooled ≡ (ok b, w')
        → IsLatest pooled.tables.blockheaders b.value)
get_last_stored_blocknumber_lem_example = get_last_stored_blocknumber_lem healthy pooled refl

-- The gap that the server returns of the blocks from 5 to 9, and the one that another server does.
found_gap :
    find_first_gap healthy (from_trusted (pos 5)) (from_trusted (pos 9)) pooled
    ≡ (ok (some (from_trusted (pos 6))), record pooled { tick = 1 })
unfolding find_first_gap get_db_pool query absent_of expected_blocks numbered stored sub_i64
    limit_one
found_gap = refl

abbrev unordered : Env
unordered = record healthy { position = λ t. 2 }

found_later_gap :
    find_first_gap unordered (from_trusted (pos 5)) (from_trusted (pos 9)) pooled
    ≡ (ok (some (from_trusted (pos 8))), record pooled { tick = 1 })
unfolding find_first_gap get_db_pool query absent_of expected_blocks numbered stored sub_i64
    limit_one
found_later_gap = refl

find_first_gap-SomeGap_example :
    (pooled.tables ≡ pooled.tables)
    × SomeGap (pos 5) (pos 9) pooled.tables.blockheaders (some (from_trusted (pos 8)))
find_first_gap-SomeGap_example =
    find_first_gap-SomeGap unordered (from_trusted (pos 5)) (from_trusted (pos 9))
      (some (from_trusted (pos 8))) pooled (record pooled { tick = 1 }) (omega arith, omega arith)
      (omega arith, omega arith) (omega arith) found_later_gap

find_first_gap_least_example :
    FirstGap (pos 5) (pos 9) pooled.tables.blockheaders (some (from_trusted (pos 6)))
find_first_gap_least_example =
    find_first_gap_least healthy (from_trusted (pos 5)) (from_trusted (pos 9))
      (some (from_trusted (pos 6))) pooled (record pooled { tick = 1 }) (λ t. refl)
      (omega arith, omega arith) (omega arith, omega arith) (omega arith) found_gap

-- The missing ranges of the blocks from 2 to 9, by the groups of the query.
found_ranges :
    (find_missing_block_ranges healthy (from_trusted (pos 2)) (from_trusted (pos 9)) pooled).0
    ≡ ok (
        (from_trusted (pos 2), from_trusted (pos 4))
        ∷ (from_trusted (pos 6), from_trusted (pos 9))
        ∷ [])
unfolding find_missing_block_ranges get_db_pool query absent_of expected_blocks numbered stored
    sub_i64 grouped_ranges group_by_grp gap_groups number_rows order_by join_groups join_group
found_ranges = refl

healthy-Serves : Serves healthy
healthy-Serves = record { unfailing = λ t. refl; reachable = refl }

find_missing_blocks_chunked_whole_example :
    let (r, v) =
      find_missing_blocks_chunked healthy
        (from_trusted (pos 2))
        (from_trusted (pos 9))
        (pos 3)
        world in
    let (r', v') =
      find_missing_blocks_in_range healthy (from_trusted (pos 2)) (from_trusted (pos 9)) world in
    (bs : List BlockNumber) × (r ≡ ok bs)
    × (r' ≡ ok bs)
    × (v.tables ≡ world.tables)
    × (v'.tables ≡ world.tables)
find_missing_blocks_chunked_whole_example =
    find_missing_blocks_chunked_whole healthy healthy-Serves (from_trusted (pos 2))
      (from_trusted (pos 9)) (pos 3) world (omega arith, omega arith) (omega arith, omega arith)
      (omega arith) (omega arith) (omega arith)

update_blocks-Fills_example :
    Fills
      (pos 2)
      (pos 9)
      world
      (update_blocks serving (from_trusted (pos 2)) (from_trusted (pos 9)) 3 world)
update_blocks-Fills_example =
    update_blocks-Fills serving serving-IsHealthy (from_trusted (pos 2)) (from_trusted (pos 9)) 3
      world (omega arith, omega arith) (omega arith, omega arith) (omega arith) (omega arith)
      (omega arith)

fill_gaps-IsKeeping_example :
    Keeps world.tables (fill_gaps healthy (some (from_trusted (pos 2))) none world).1.tables
fill_gaps-IsKeeping_example = fill_gaps-IsKeeping healthy (some (from_trusted (pos 2))) none world

update_from-EndsKept_example :
    EndsKept healthy world.tables
      (update_from healthy 30 (some (from_trusted (pos 2))) none 3 world)
update_from-EndsKept_example =
    update_from-EndsKept healthy 30 (some (from_trusted (pos 2))) none 3 world
