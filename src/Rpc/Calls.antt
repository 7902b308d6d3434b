-- ===== src/Rpc/Calls.antt =====
-- src/rpc/mod.rs: what is asked of the node, and what its answer becomes, in the functions of the
-- module and in the methods of `EthereumJsonRpcClient`. The HTTP transport and the node are a
-- parameter: what each attempt at a request leads to.
pub mod Finalized
use fossil_headers_db.Prelude.{ℕ, Bool, false, List, map, ◌++◌, Option, none, some}
use fossil_headers_db.Result.{Result, ok, err, map_err, ◌>>=◌}
use fossil_headers_db.Text.{Text, text, hex_i64, show_i64}
use fossil_headers_db.Errors.{BlockchainError, display, configuration, rpc_connection}
use fossil_headers_db.Types.{BlockNumber, from_hex}
use fossil_headers_db.Rpc.{BlockHeader, BlockHeaderWithEmptyTransaction}
use fossil_headers_db.Rpc.Client.{HttpReply, make_rpc_call, Call, make_retrying_rpc_call}

pub record RpcRequest : Type 0 where
  pub jsonrpc : Text
  pub id : Text
  pub method : Text
  pub params : Text × Bool

unfoldable pub finalized_request : RpcRequest
finalized_request = record {
  jsonrpc = text "2.0";
  id = text "0";
  method = text "eth_getBlockByNumber";
  params = (text "finalized", false);
}

unfoldable pub number_request : BlockNumber → RpcRequest
number_request b = record {
  jsonrpc = text "2.0";
  id = text "0";
  method = text "eth_getBlockByNumber";
  params = (text "0x" ++ hex_i64 b.value, false);
}

-- The request of a batch for one of its blocks.
unfoldable pub batch_request : BlockNumber → RpcRequest
batch_request b = record {
  jsonrpc = text "2.0";
  id = show_i64 b.value;
  method = text "eth_getBlockByNumber";
  params = (text "0x" ++ hex_i64 b.value, false);
}

-- `from_hex` on the number of the answer; a failed call is reported as a failed connection.
unfoldable pub read_number :
    {A : Type 0} → Text → (A → Text) → Result BlockchainError A → Result BlockchainError BlockNumber
read_number message number answer = do
  header ← map_err (λ e. rpc_connection (message ++ display e)) answer
  from_hex (number header)

abbrev with_outcome : {A B : Type 0} → Call A → Result BlockchainError B → Call B
with_outcome c r = record { outcome = r; slept = c.slept; made = c.made }

module _ (debug : BlockchainError → Text) where
  -- The methods of the client.
  module _ (reply : RpcRequest → ℕ → HttpReply BlockHeader) (max_retries : ℕ) where
    unfoldable pub client_latest_finalized : Call BlockNumber
    client_latest_finalized =
        let c =
          make_retrying_rpc_call debug (λ n. make_rpc_call (reply finalized_request n))
            max_retries in
        with_outcome c
          (read_number (text "Failed to get latest block number: ") (λ h. h.number) c.outcome)

    unfoldable pub client_full_block : BlockNumber → Call BlockHeader
    client_full_block b =
        make_retrying_rpc_call debug (λ n. make_rpc_call (reply (number_request b) n)) max_retries

  -- The functions of the module. `connection` is the variable NODE_CONNECTION_STRING.
  module _ (connection : Option Text) where
    unfoldable pub get_connection_string : Result BlockchainError Text
    get_connection_string = elim connection [
      | none ↦
          err (configuration (text "NODE_CONNECTION_STRING") (text "Environment variable not set"))
      | some s ↦ ok s
    ]

    unfoldable pub call_node : {A : Type 0} → HttpReply A → Result BlockchainError A
    call_node reply = get_connection_string >>= λ s. make_rpc_call reply

    module _ (reply : RpcRequest → ℕ → HttpReply BlockHeaderWithEmptyTransaction) where
      unfoldable pub get_latest_finalized_blocknumber : Call BlockNumber
      get_latest_finalized_blocknumber =
          let c = make_retrying_rpc_call debug (λ n. call_node (reply finalized_request n)) 5 in
          with_outcome c (
            read_number (text "Failed to get latest finalized block number: ") (λ h. h.number)
              c.outcome)

      unfoldable pub get_full_block_by_number : BlockNumber → Call BlockHeaderWithEmptyTransaction
      get_full_block_by_number b =
          make_retrying_rpc_call debug (λ n. call_node (reply (number_request b) n)) 5

    unfoldable pub batch_get_full_block_by_number :
        (List RpcRequest → HttpReply (List BlockHeaderWithEmptyTransaction))
        → List BlockNumber
        → Result BlockchainError (List BlockHeaderWithEmptyTransaction)
    batch_get_full_block_by_number reply numbers = call_node (reply (map batch_request numbers))
