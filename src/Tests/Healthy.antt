-- ===== src/Tests/Healthy.antt =====
-- The services beside a node and a database that answer, and told to stop.
use fossil_headers_db.Prelude.{ℕ, pos, ◌≤◌, ◌≡◌, refl, true, false, ◌++◌, some, arith}
use fossil_headers_db.Result.{Result, ok}
use fossil_headers_db.Errors.{Report}
use fossil_headers_db.Text.{text, hex_i64}
use fossil_headers_db.Types.{BlockNumber, from_trusted}
use fossil_headers_db.Utils.RoundTrip.{convert-hex_i64}
use fossil_headers_db.Database.Rows.{stored}
use fossil_headers_db.Database.Action.{Env, World}
use fossil_headers_db.Repositories.Convert.{convert_rpc_blockheader_to_dto, dto_of}
use fossil_headers_db.Repositories.Metadata.{first_row}
use fossil_headers_db.Repositories.Succeeding.{IsStorable}
use fossil_headers_db.Repositories.Unique.{AreUnique}
use fossil_headers_db.Quick.CatchingUp.{Records, Reaches, cycles, cycles-Reaches}
use fossil_headers_db.Batch.{process_missing_blocks_cycle, index}
use fossil_headers_db.Batch.Missing.{IsBlock}
use fossil_headers_db.Batch.Complete.{Stored, Finished}
use fossil_headers_db.Batch.Serving.{IsServing}
use fossil_headers_db.Batch.Healthy.{process_missing_blocks_cycle_fills}
use fossil_headers_db.Batch.Ending.{index_stops}
use fossil_headers_db.Tests.{header_at, healthy, quick, batch, metadata, world}

abbrev serving : Env
serving = record healthy { terminated = λ t. false }

header_at-IsStorable :
    (b : BlockNumber)
    → IsBlock b.value
    → IsStorable false (header_at (text "0x" ++ hex_i64 b.value))
unfolding convert_rpc_blockheader_to_dto text hex_i64
header_at-IsStorable b inside = record {
  dto =
      dto_of (header_at (text "0x" ++ hex_i64 b.value)) b.value (pos 30000000) (pos 21000) (pos 100)
        (text "0x01") (text "0x02") (text "0x03");
  converts =
      rw
        (
          convert-hex_i64 b.value inside.0 (omega arith),
          convert-hex_i64 (pos 30000000) (omega arith) (omega arith),
          convert-hex_i64 (pos 21000) (omega arith) (omega arith),
          convert-hex_i64 (pos 100) (omega arith) (omega arith),
        )
        refl;
  carries = λ wanted. cc;
}

serving-IsServing : IsServing serving false
serving-IsServing = record {
  answers = λ t b inside. (
    header_at (text "0x" ++ hex_i64 b.value),
    refl,
    convert-hex_i64 b.value inside.0 (omega arith),
    header_at-IsStorable b inside,
  );
  prompt = λ t b. refl;
  unfailing = λ t. refl;
  continuing = λ t. refl;
}

world_AreUnique : AreUnique world.tables.blockheaders
unfolding stored
world_AreUnique = (refl, tt)

first_metadata : first_row world.tables.index_metadata ≡ ok metadata
unfolding first_row
first_metadata = refl

process_missing_blocks_cycle_fills_example :
    let (r, w') = process_missing_blocks_cycle serving batch world in
    (r ≡ ok true) × Stored (pos 2) (pos 5) w'.tables × Finished w'.tables.index_metadata
process_missing_blocks_cycle_fills_example =
    process_missing_blocks_cycle_fills serving batch serving-IsServing world metadata first_metadata
      (omega arith, omega arith) (omega arith, omega arith) (omega arith) (omega arith)

healthy_stops : (t : ℕ) → 20 ≤ t → healthy.terminated t ≡ true
healthy_stops t h = ground arith

index_stops_example :
    (r : Result Report (Unit {0})) × (w' : World) × (index healthy batch 21 world ≡ some (r, w'))
index_stops_example =
    index_stops healthy batch 20 21 world healthy_stops (omega arith) (omega arith)

world_Records : Records 5 world.tables.index_metadata
world_Records = record { metadata = metadata; first = first_metadata; latest = refl }

cycles-Reaches_example : Reaches 5 8 world (cycles serving quick 2 world)
cycles-Reaches_example =
    cycles-Reaches serving quick serving-IsServing (from_trusted (pos 8)) 8 (λ t. refl) refl
      (omega arith) (omega arith) (omega arith) 2 5 world (omega arith) world_Records
      world_AreUnique
