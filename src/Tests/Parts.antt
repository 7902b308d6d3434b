-- ===== src/Tests/Parts.antt =====
-- Runs of the parts, and the theorems about them.
use fossil_headers_db.Database.Rows.{HeaderRow}
use fossil_headers_db.Prelude.{
  ℕ, ◌^◌, ◌*◌, ◌+◌, ◌<◌, negsuc, zero, suc, true, pos, ◌≤ℤ◌, ◌≡◌, ◌↔◌, refl, false, none, some, [],
  ◌∷◌, ◌++◌, arith,
}
use fossil_headers_db.Result.{ok}
use fossil_headers_db.Text.{text, hex_i64}
use fossil_headers_db.Types.{from_trusted, new, from_str, from_hex, display}
use fossil_headers_db.Types.RoundTrip.{IsValid, new_iff, from_str-display, from_hex-hex_i64}
use fossil_headers_db.Utils.{convert_hex_string_to_i64}
use fossil_headers_db.Utils.RoundTrip.{convert-hex_i64}
use fossil_headers_db.Config.Quick.{QuickIndexConfig}
use fossil_headers_db.Config.Batch.{BatchIndexConfig}
use fossil_headers_db.Config.Indexing
use fossil_headers_db.Config.Indexing.{IndexingConfig, IndexingConfigBuilder}
use fossil_headers_db.Config.Validation.{IsUsable, quick_config, batch_config, build-spawns}
use fossil_headers_db.Quick.{calculate_ending_block, store_block_headers, fetch_and_store_blocks}
use fossil_headers_db.Quick.Invariant.{calculate_ending_block_bounds}
use fossil_headers_db.Quick.Transaction.{Stores, store_block_headers-Stores}
use fossil_headers_db.Quick.Attempt.{Attempted, fetch_and_store_blocks-Attempted}
use fossil_headers_db.Errors.{BlockchainError}
use fossil_headers_db.Rpc.Client.{
  HttpReply, not_sent, responded, parsed, make_rpc_call, make_retrying_rpc_call,
}
use fossil_headers_db.Rpc.Client.Retries.{IsRetried, make_retrying_rpc_call-IsRetried}
use fossil_headers_db.Batch.{fetch_retry_backoff}
use fossil_headers_db.Batch.Backoff.{fetch_retry_backoff_exact}
use fossil_headers_db.Repositories.Convert.{error_number}
use fossil_headers_db.Repositories.ErrorNumber.{error_number_hex}
use fossil_headers_db.Text.{Text}
use fossil_headers_db.Tests.{header_at, row_at, healthy, quick, world}

from_str-display_example :
    from_str (display (from_trusted (pos 18000000))) ≡ ok (from_trusted (pos 18000000))
from_str-display_example = from_str-display (from_trusted (pos 18000000)) (omega arith, omega arith)

from_hex-hex_i64_example :
    from_hex (text "0x" ++ hex_i64 (pos 18000000)) ≡ ok (from_trusted (pos 18000000))
from_hex-hex_i64_example = from_hex-hex_i64 (from_trusted (pos 18000000)) (omega arith, omega arith)

convert-hex_i64_example : convert_hex_string_to_i64 (text "0x" ++ hex_i64 (pos 255)) ≡ ok (pos 255)
convert-hex_i64_example = convert-hex_i64 (pos 255) (omega arith) (omega arith)

new_iff_example :
    (new (pos 7) ≡ ok (from_trusted (pos 7)))
    ↔ ((from_trusted (pos 7) ≡ from_trusted (pos 7)) × IsValid (from_trusted (pos 7)))
new_iff_example = new_iff (pos 7) (from_trusted (pos 7))

abbrev other_row : HeaderRow
other_row = record (row_at (pos 6)) { gas_used = pos 1 }

calculate_ending_block_bounds_example :
    let e = calculate_ending_block healthy quick (pos 5) (from_trusted (pos 8)) in
    (pos 5 ≤ℤ e) × (e ≤ℤ pos 8)
calculate_ending_block_bounds_example =
    calculate_ending_block_bounds healthy quick (pos 5) (from_trusted (pos 8)) (omega arith)
      (omega arith) (omega arith)

store_block_headers-Stores_example :
    Stores (header_at (text "0x7") ∷ header_at (text "0x6") ∷ []) (pos 7) world (
      store_block_headers healthy quick
        (header_at (text "0x7") ∷ header_at (text "0x6") ∷ [])
        (pos 7)
        world)
store_block_headers-Stores_example =
    store_block_headers-Stores healthy quick (header_at (text "0x7") ∷ header_at (text "0x6") ∷ [])
      (pos 7) world

fetch_and_store_blocks-Attempted_example :
    Attempted
      (pos 6)
      (pos 7)
      world
      (fetch_and_store_blocks healthy quick (pos 6 ∷ pos 7 ∷ []) (pos 6) (pos 7) world).1
fetch_and_store_blocks-Attempted_example =
    fetch_and_store_blocks-Attempted healthy quick (pos 6 ∷ pos 7 ∷ []) (pos 6) (pos 7) world

abbrev settings : IndexingConfig
settings = record {
  db_conn_string = [];
  node_conn_string = [];
  should_index_txs = false;
  max_retries = 10;
  poll_interval = 10;
  rpc_timeout = 300;
  rpc_max_retries = 5;
  index_batch_size = 100;
  start_block_offset = none;
}

abbrev chosen : IndexingConfigBuilder
chosen = record {
  db_conn_string = some [];
  node_conn_string = some [];
  should_index_txs = false;
  max_retries = 10;
  poll_interval = 10;
  rpc_timeout = 300;
  rpc_max_retries = 5;
  index_batch_size = 100;
  start_block_offset = none;
}

-- It is what the preset for production becomes once the two addresses are given.
chosen_is_production :
    Indexing.with_node_conn_string [] (Indexing.with_db_conn_string [] Indexing.production) ≡ chosen
unfolding Indexing.production Indexing.with_db_conn_string Indexing.with_node_conn_string
    Indexing.with_max_retries Indexing.with_poll_interval Indexing.with_rpc_timeout
    Indexing.with_rpc_max_retries Indexing.with_index_batch_size Indexing.builder_new
chosen_is_production = refl

chosen_builds : Indexing.build chosen ≡ ok settings
unfolding Indexing.build
chosen_builds = refl

build-spawns_example :
    IsUsable settings
    × ((q : QuickIndexConfig) × (quick_config settings ≡ ok q)
        × (q.max_retries ≡ 10)
        × (q.poll_interval ≡ 10)
        × (q.rpc_timeout ≡ 300)
        × (q.index_batch_size ≡ 100)
        × (q.should_index_txs ≡ false))
    × ((q : BatchIndexConfig) × (batch_config settings ≡ ok q)
        × (q.max_retries ≡ 10)
        × (q.poll_interval ≡ 10)
        × (q.rpc_timeout ≡ 300)
        × (q.index_batch_size ≡ 100)
        × (q.should_index_txs ≡ false)
        × (q.max_concurrent_requests ≡ 10)
        × (q.task_timeout ≡ 300))
build-spawns_example = build-spawns chosen settings chosen_builds

fetch_retry_backoff_exact_example : (fetch_retry_backoff 7 ≡ (7 + 1) ^ 2 * 5) ↔ (7 < 7)
fetch_retry_backoff_exact_example = fetch_retry_backoff_exact 7

error_number_hex_example : error_number (header_at (text "0x7")) ≡ negsuc 0
unfolding text
error_number_hex_example = error_number_hex (header_at (text "0x7")) (text "7") refl

-- A node that is not reached twice, and then answers.
abbrev flaky : ℕ → HttpReply ℕ
flaky zero = not_sent (record { is_timeout = true; is_connect = false; message = [] })
flaky (suc zero) = not_sent (record { is_timeout = false; is_connect = true; message = [] })
flaky (suc (suc n)) = responded (parsed (record { result = some 42; error = none }))

abbrev debug : BlockchainError → Text
debug e = []

make_retrying_rpc_call-IsRetried_example :
    IsRetried debug
      (λ n. make_rpc_call (flaky n))
      5
      (make_retrying_rpc_call debug (λ n. make_rpc_call (flaky n)) 5)
make_retrying_rpc_call-IsRetried_example =
    make_retrying_rpc_call-IsRetried debug (λ n. make_rpc_call (flaky n)) 5
