-- ===== src/Tests/Program.antt =====
-- The program of the indexer as a whole, and a quick service that is to index transactions.
use fossil_headers_db.Prelude.{pos, ◌≡◌, refl, ◌↔◌, true, [], ◌∷◌, none, some, ◌++◌, arith}
use fossil_headers_db.Result.{ok, err}
use fossil_headers_db.Text.{text, hex_i64}
use fossil_headers_db.Types.{BlockNumber, from_trusted}
use fossil_headers_db.Config.Quick.{QuickIndexConfig}
use fossil_headers_db.Config.Indexing.{IndexingConfig}
use fossil_headers_db.Rpc.{BlockHeader, hash_only}
use fossil_headers_db.Database.Action.{Env, joined}
use fossil_headers_db.Repositories.Metadata.{first_row}
use fossil_headers_db.Quick.{process_indexing_cycle, gave_up}
use fossil_headers_db.Quick.SentHashes.{HasHash, SendsHashes}
use fossil_headers_db.Quick.Hashes.{process_indexing_cycle-gave_up}
use fossil_headers_db.Initialization.Services.{Platform, finished}
use fossil_headers_db.Programs.Indexer.{Process, main}
use fossil_headers_db.Programs.Outcome.{IsUsable, Succeeded, main_iff}
use fossil_headers_db.Tests.{header_at, healthy, quick, metadata, world}

abbrev with_hash : BlockNumber → BlockHeader
with_hash b = record (header_at (text "0x" ++ hex_i64 b.value)) {
  transactions = hash_only (text "0x01") ∷ [];
}

abbrev sending_hashes : Env
sending_hashes = record healthy { fetch = λ t b. joined (ok (with_hash b)) }

abbrev indexing_txs : QuickIndexConfig
indexing_txs = record quick { should_index_txs = true }

with_hash-HasHash : (b : BlockNumber) → HasHash (with_hash b)
with_hash-HasHash b = record { first = text "0x01"; others = []; sent = refl }

sending-SendsHashes : SendsHashes sending_hashes
sending-SendsHashes t b h e = let same : with_hash b ≡ h = cc e in rw (← same) (with_hash-HasHash b)

first_metadata : first_row world.tables.index_metadata ≡ ok metadata
unfolding first_row
first_metadata = refl

process_indexing_cycle-gave_up_example :
    let (r, w') = process_indexing_cycle sending_hashes indexing_txs world in
    (r ≡ err gave_up) × (w'.tables ≡ world.tables)
process_indexing_cycle-gave_up_example =
    process_indexing_cycle-gave_up sending_hashes indexing_txs refl world metadata
      (from_trusted (pos 8)) sending-SendsHashes first_metadata refl refl (omega arith)

abbrev platform : Platform
platform = record {
  parse_options = λ s. ok tt;
  migrate = λ t. none;
  run = λ q b w. record {
    router = finished (ok tt);
    quick = finished (ok tt);
    batch = finished (ok tt);
    state = w;
  };
}

abbrev process : Process
process = record {
  variables = record {
    is_dev = none;
    db_connection_string = some (text "postgres://localhost/headers");
    node_connection_string = some (text "http://localhost:8545");
    index_transactions = none;
    start_block_offset = some (text "12");
  };
  dotenv = err (text "path not found");
  handler = none;
}

main_iff_example : ((main healthy platform process world).0 ≡ ok tt) ↔ (
    (config : IndexingConfig) × IsUsable process config × Succeeded healthy platform config world)
main_iff_example = main_iff healthy platform process world
