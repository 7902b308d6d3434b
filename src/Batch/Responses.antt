-- ===== src/Batch/Responses.antt =====
-- src/indexer/batch_service.rs: what became of the tasks that fetch some blocks.
use fossil_headers_db.Prelude.{
  ℕ, zero, suc, ◌+◌, ℤ, eqb_ℤ, Bool, true, false, List, [], ◌∷◌, take, drop, if◌then◌else◌,
}
use fossil_headers_db.Result.{Result, ok, err}
use fossil_headers_db.Types.{BlockNumber}
use fossil_headers_db.Utils.{convert_hex_string_to_i64}
use fossil_headers_db.Errors.{BlockchainError}
use fossil_headers_db.Rpc.{BlockHeader}
use fossil_headers_db.Database.Action.{Joined, joined, panicked}

-- How one task ended: the timer around the request may have run out first.
pub data TaskResult : Type 0 where
  header : BlockHeader → TaskResult
  request_failed : TaskResult
  task_failed : TaskResult

abbrev pub ended : Bool → Joined → TaskResult
ended elapsed panicked = task_failed
ended true (joined r) = request_failed
ended false (joined (ok h)) = header h
ended false (joined (err e)) = request_failed

-- `create_specific_block_fetch_tasks` and `join_all`. The semaphore is never closed.
unfoldable pub fetch_tasks :
    (BlockNumber → Bool) → (BlockNumber → Joined) → List BlockNumber → List TaskResult
fetch_tasks elapsed fetch [] = []
fetch_tasks elapsed fetch (b ∷ bs) = ended (elapsed b) (fetch b) ∷ fetch_tasks elapsed fetch bs

unfoldable pub check_number :
    Result BlockchainError ℤ → BlockHeader → ℤ → Result (Unit {0}) BlockHeader
check_number (ok actual) h expected = if eqb_ℤ actual expected then ok h else err tt
check_number (err e) h expected = err tt

unfoldable pub validate_block_header : BlockHeader → ℤ → Result (Unit {0}) BlockHeader
unfolding check_number
validate_block_header h expected = check_number (convert_hex_string_to_i64 h.number) h expected

unfoldable pub process_single_block_response : TaskResult → ℤ → Result (Unit {0}) BlockHeader
process_single_block_response (header h) expected = validate_block_header h expected
process_single_block_response request_failed expected = err tt
process_single_block_response task_failed expected = err tt

-- The headers, the number of errors and the blocks that failed. There is a response for each
-- number, so the two lists end together.
pub record Fetched : Type 0 where
  pub block_headers : List BlockHeader
  pub error_count : ℕ
  pub failed_blocks : List ℤ

unfoldable pub add_response : Result (Unit {0}) BlockHeader → ℤ → Fetched → Fetched
add_response (ok h) expected f = record f { block_headers = h ∷ f.block_headers }
add_response (err e) expected f = record f {
  error_count = f.error_count + 1;
  failed_blocks = expected ∷ f.failed_blocks;
}

unfoldable pub process_specific_block_responses : List TaskResult → List BlockNumber → Fetched
unfolding add_response
process_specific_block_responses [] numbers = record {
  block_headers = [];
  error_count = 0;
  failed_blocks = [];
}
process_specific_block_responses (r ∷ rs) [] = record {
  block_headers = [];
  error_count = 0;
  failed_blocks = [];
}
process_specific_block_responses (r ∷ rs) (b ∷ bs) =
    add_response (process_single_block_response r b.value) b.value
      (process_specific_block_responses rs bs)

-- `chunks(size)`, on as much fuel as there are elements; each chunk takes one at least.
unfoldable pub chunks : ℕ → ℕ → List BlockNumber → List (List BlockNumber)
chunks zero size xs = []
chunks (suc fuel) size [] = []
chunks (suc fuel) size (x ∷ xs) = take size (x ∷ xs) ∷ chunks fuel size (drop size (x ∷ xs))
