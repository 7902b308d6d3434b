-- ===== src/Quick/Responses.antt =====
-- src/indexer/quick_service.rs: the checks on what the node has answered, before anything is stored.
use fossil_headers_db.Prelude.{
  ℕ, ◌+◌, ℤ, pos, eqb_ℤ, not, List, [], ◌∷◌, ◌++◌, length, is_empty, ◌==◌,
}
use fossil_headers_db.Prelude.Machine.{add_i64}
use fossil_headers_db.Result.{Result, ok, err, ◌>>=◌, ◌>>◌, fail_if, map_err, traverse}
use fossil_headers_db.Text.{Text, text, show_i64, show_nat}
use fossil_headers_db.Errors.{BlockchainError, Report, join_error, message, display}
use fossil_headers_db.Types.{BlockNumber, from_trusted}
use fossil_headers_db.Utils.{convert_hex_string_to_i64}
use fossil_headers_db.Rpc.{BlockHeader}
use fossil_headers_db.Database.Action.{Joined, joined, panicked}
use fossil_headers_db.Blocks.{expected_count, sort_headers, show_list}

-- `create_rpc_futures` and `try_join_all`: one task for each block, and the first that does not
-- come back is an error of all.
abbrev pub unjoin : Joined → Result Report (Result BlockchainError BlockHeader)
unjoin (joined r) = ok r
unjoin panicked = err join_error

unfoldable pub join_all :
    (BlockNumber → Joined) → List ℤ → Result Report (List (Result BlockchainError BlockHeader))
unfolding traverse
join_all fetch = traverse (λ n. unjoin (fetch (from_trusted n)))

abbrev pub unreadable : Text → Text → BlockchainError → Report
unreadable what number e = message (
    text "Invalid block number in "
    ++ (what ++ (text ": '" ++ (number ++ (text "' failed to parse with error: " ++ display e)))))

-- The loop over the responses: the headers, and the blocks that failed.
unfoldable pub collect :
    ℤ → ℕ → List (Result BlockchainError BlockHeader) → Result Report (List BlockHeader × List ℤ)
unfolding add_i64
collect starting_block idx [] = ok ([], [])
collect starting_block idx (ok header ∷ responses) = do
  let block_num = add_i64 starting_block (pos idx)
  actual ←
      map_err (unreadable (text "header for block " ++ show_i64 block_num) header.number)
        (convert_hex_string_to_i64 header.number)
  fail_if (not (eqb_ℤ actual block_num)) (
      message (
        text "Block number mismatch: expected "
        ++ (show_i64 block_num ++ (text ", got " ++ show_i64 actual))))
  rest ← collect starting_block (idx + 1) responses
  ok (header ∷ rest.0, rest.1)
collect starting_block idx (err e ∷ responses) = do
  rest ← collect starting_block (idx + 1) responses
  ok (rest.0, add_i64 starting_block (pos idx) ∷ rest.1)

unfoldable pub process_rpc_responses :
    List (Result BlockchainError BlockHeader) → ℤ → ℤ → Result Report (List BlockHeader)
unfolding collect show_list
process_rpc_responses responses starting_block ending_block = do
  expected ← expected_count starting_block ending_block
  fail_if (not (length responses == expected)) (
      message (
        text "Response count mismatch: expected "
        ++ (show_nat expected ++ (text ", got " ++ show_nat (length responses)))))
  collected ← collect starting_block 0 responses
  fail_if (not (is_empty collected.1)) (
      message (
        text "RPC calls failed for blocks: "
        ++ (show_list collected.1
            ++ text
                ". NO BLOCKS WILL BE PROCESSED until ALL blocks in range are successfully fetched.")))
  fail_if (not (length collected.0 == expected)) (
      message (
        text "Internal error: expected "
        ++ (show_nat expected
            ++ (text " blocks, but only "
                ++ (show_nat (length collected.0) ++ text " were successfully processed")))))
  ok collected.0

-- The loop that checks the order of the sorted headers.
unfoldable pub check_sequence : ℤ → ℕ → List BlockHeader → Result Report (Unit {0})
unfolding add_i64
check_sequence first_block idx [] = ok tt
check_sequence first_block idx (header ∷ headers) = do
  actual ←
      map_err (unreadable (text "header at index " ++ show_nat idx) header.number)
        (convert_hex_string_to_i64 header.number)
  fail_if (not (eqb_ℤ actual (add_i64 first_block (pos idx)))) (
      message (
        text "Non-sequential blocks detected: expected "
        ++ (show_i64 (add_i64 first_block (pos idx))
            ++ (text ", got " ++ (show_i64 actual ++ (text " at index " ++ show_nat idx))))))
  check_sequence first_block (idx + 1) headers

unfoldable pub read_number : Text → BlockHeader → Result Report ℤ
read_number what h = map_err (unreadable what h.number) (convert_hex_string_to_i64 h.number)

-- The number of `sorted_headers[0]`, which is there since the list is not empty.
unfoldable pub first_number : List BlockHeader → Result Report ℤ
unfolding read_number
first_number [] = err (message (text "index out of bounds"))
first_number (h ∷ hs) = read_number (text "first header") h

unfoldable pub last_number : List BlockHeader → Result Report ℤ
unfolding read_number
last_number [] = err (message (text "No headers available after sorting (this should not happen)"))
last_number (h ∷ []) = read_number (text "last header") h
last_number (h ∷ g ∷ hs) = last_number (g ∷ hs)

-- The part of `store_block_headers` before its transaction: the headers in the order of storing.
unfoldable pub verify_order : List BlockHeader → ℤ → Result Report (List BlockHeader)
unfolding sort_headers first_number check_sequence last_number
verify_order block_headers ending_block = do
  fail_if (is_empty block_headers) (message (text "Cannot store empty block headers"))
  let sorted_headers = sort_headers block_headers
  first_block ← first_number sorted_headers
  check_sequence first_block 0 sorted_headers
  last_block_num ← last_number sorted_headers
  fail_if (not (eqb_ℤ last_block_num ending_block)) (
      message (
        text "Ending block mismatch: expected "
        ++ (show_i64 ending_block ++ (text ", got " ++ show_i64 last_block_num))))
  ok sorted_headers
