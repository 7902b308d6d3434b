-- ===== src/Rpc/Client.antt =====
-- src/rpc/mod.rs: one call to the node and its retries. What the node and the HTTP client answer at
-- each attempt is a parameter, and so is the JSON text of an error object.
pub mod Retries
use fossil_headers_db.Prelude.{
  ℕ, zero, suc, ◌+◌, ◌^◌, ◌%◌, Bool, ◌||◌, List, [], ◌∷◌, ◌++◌, Option, none, some, ltb,
  if◌then◌else◌,
}
use fossil_headers_db.Result.{Result, ok, err, ◌>>=◌}
use fossil_headers_db.Text.{Text, text, contains}
use fossil_headers_db.Errors.{BlockchainError, rpc_connection, ReqwestError, from_reqwest}

-- `RpcResponse`; an error object is kept as its text.
pub record RpcResponse (A : Type 0) : Type 0 where
  pub result : Option A
  pub error : Option Text

-- What the body of a response turns out to be: it cannot be read, it is not the expected JSON (with
-- the message of `serde_json`), or it is.
pub data Body (A : Type 0) : Type 0 where
  not_read : ReqwestError → Body A
  not_parsed : Text → Body A
  parsed : RpcResponse A → Body A

-- What an HTTP request leads to: no response, or one with a body.
pub data HttpReply (A : Type 0) : Type 0 where
  not_sent : ReqwestError → HttpReply A
  responded : Body A → HttpReply A

-- The messages that `make_retrying_rpc_call` looks for.
abbrev pub null_result : Text
null_result = text "FATAL: Block not found (null result) - stopping to prevent gaps"

unfoldable pub missing_result : {A : Type 0} → Option Text → Result BlockchainError A
missing_result none = err (rpc_connection null_result)
missing_result (some error) = err (rpc_connection (text "FATAL RPC error: " ++ error))

unfoldable pub answer : {A : Type 0} → Option A → Option Text → Result BlockchainError A
unfolding missing_result
answer (some result) error = ok result
answer none error = missing_result error

unfoldable pub send_http_request : {A : Type 0} → HttpReply A → Result BlockchainError (Body A)
send_http_request (not_sent e) = err (from_reqwest e)
send_http_request (responded body) = ok body

unfoldable pub parse_response : {A : Type 0} → Body A → Result BlockchainError A
unfolding answer
parse_response (not_read e) = err (from_reqwest e)
parse_response (not_parsed e) = err (rpc_connection (text "Failed to parse RPC response: " ++ e))
parse_response (parsed r) = answer r.result r.error

unfoldable pub make_rpc_call : {A : Type 0} → HttpReply A → Result BlockchainError A
unfolding send_http_request parse_response
make_rpc_call reply = do response ← send_http_request reply; parse_response response

-- A call with its retries: its result, the seconds slept in between, and the attempts made.
pub record Call (A : Type 0) : Type 0 where
  pub outcome : Result BlockchainError A
  pub slept : List ℕ
  pub made : ℕ

-- `debug` is the derived `Debug` format, in which the loop searches for the two marks; `call` is what
-- each attempt returns.
module _ {A : Type 0} (debug : BlockchainError → Text) (call : ℕ → Result BlockchainError A)
    (max_retries : ℕ) where
  unfoldable pub is_fatal : BlockchainError → Bool
  is_fatal e = contains (debug e) (text "FATAL") || contains (debug e) (text "null result")

  -- The loop, from the state where `attempts` calls have failed. The round after `max_retries`
  -- failures returns, so `max_retries + 1` rounds are enough.
  unfoldable pub retry_loop : ℕ → ℕ → BlockchainError → List ℕ → Call A
  retry_loop zero attempts last slept = record {
    outcome = err last;
    slept = slept;
    made = attempts;
  }
  retry_loop (suc fuel) attempts last slept = elim (call attempts) [
    | ok result ↦ record { outcome = ok result; slept = slept; made = attempts + 1 }
    | err e ↦
        let rest = retry_loop fuel (attempts + 1) e ((2 ^ (attempts + 1) % 2 ^ 64) ∷ slept) in
        if is_fatal e
        then record { outcome = err e; slept = slept; made = attempts + 1 }
        else if ltb max_retries (attempts + 1)
        then record { outcome = err e; slept = slept; made = attempts + 1 }
        else rest
  ]

  unfoldable pub make_retrying_rpc_call : Call A
  unfolding retry_loop
  make_retrying_rpc_call = retry_loop (suc max_retries) 0 (rpc_connection []) []
