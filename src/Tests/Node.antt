-- ===== src/Tests/Node.antt =====
-- Calls to a node and the end of the program, and the theorems about them.
use fossil_headers_db.Prelude.{◌↔◌, ◌∷◌}
use fossil_headers_db.Initialization.Completion.{
  returned, service_panicked, wait_for_thread_completion, AllDone, wait_for_thread_completion_iff,
}
use fossil_headers_db.Prelude.{ℕ, zero, suc, pos, ◌≡◌, refl, true, false, [], length, none, some}
use fossil_headers_db.Result.{ok, err}
use fossil_headers_db.Text.{Text, text, contains, from_str_radix, strip_0x}
use fossil_headers_db.Errors.{BlockchainError}
use fossil_headers_db.Types.{from_trusted, from_hex, new}
use fossil_headers_db.Types.RoundTrip.{IsValid}
use fossil_headers_db.Rpc.{BlockHeader, BlockHeaderWithEmptyTransaction}
use fossil_headers_db.Rpc.Client.{
  HttpReply, not_sent, responded, parsed, make_rpc_call, is_fatal, make_retrying_rpc_call,
}
use fossil_headers_db.Rpc.Calls.{
  RpcRequest, number_request, read_number, client_latest_finalized, call_node,
  get_full_block_by_number,
}
use fossil_headers_db.Rpc.Calls.Finalized.{
  Answered, unset_variable, client_latest_finalized-Answered, get_full_block_by_number_unset,
}
use fossil_headers_db.Tests.{header_at}

abbrev debug : BlockchainError → Text
debug e = []

-- A node that cannot be reached at first, and then answers with block 8.
abbrev node : RpcRequest → ℕ → HttpReply BlockHeader
node request zero = not_sent (record { is_timeout = false; is_connect = true; message = [] })
node request (suc n) =
    responded (parsed (record { result = some (header_at (text "0x8")); error = none }))

abbrev down : RpcRequest → ℕ → HttpReply BlockHeaderWithEmptyTransaction
down request n = not_sent (record { is_timeout = false; is_connect = true; message = [] })

reported : (client_latest_finalized debug node 5).outcome ≡ ok (from_trusted (pos 8))
unfolding client_latest_finalized read_number make_retrying_rpc_call make_rpc_call is_fatal contains
    text from_hex from_str_radix strip_0x new
reported = refl

client_latest_finalized-Answered_example :
    IsValid (from_trusted (pos 8)) × Answered node (λ h. h.number) 5 (from_trusted (pos 8))
client_latest_finalized-Answered_example =
    client_latest_finalized-Answered debug node 5 (from_trusted (pos 8)) reported

unmarked :
    is_fatal debug
      (λ n. call_node debug none (down (number_request (from_trusted (pos 8))) n))
      5
      unset_variable
    ≡ false
unfolding is_fatal contains text
unmarked = refl

get_full_block_by_number_unset_example :
    let c = get_full_block_by_number debug none down (from_trusted (pos 8)) in
    (c.made ≡ 6) × (length c.slept ≡ 5) × (c.outcome ≡ err unset_variable)
get_full_block_by_number_unset_example =
    get_full_block_by_number_unset debug down (from_trusted (pos 8)) unmarked

wait_for_thread_completion_iff_example :
    (wait_for_thread_completion (returned (ok tt) ∷ service_panicked ∷ []) ≡ ok tt)
    ↔ AllDone (returned (ok tt) ∷ service_panicked ∷ [])
wait_for_thread_completion_iff_example =
    wait_for_thread_completion_iff (returned (ok tt) ∷ service_panicked ∷ [])
