-- ===== src/Rpc/Calls/Finalized.antt =====
-- src/rpc/mod.rs: what the calls return, and that the finalized block that they report is valid.
use fossil_headers_db.Prelude.{ℕ, ◌≤◌, ◌≡◌, refl, sym, ◌∙◌, inl, inr, false, length, none}
use fossil_headers_db.Prelude.Machine.{i64_half}
use fossil_headers_db.Result.{Result, ok, err, Result-cases}
use fossil_headers_db.Text.{Text, text, strip_0x, from_str_radix}
use fossil_headers_db.Errors.{BlockchainError, configuration}
use fossil_headers_db.Types.{BlockNumber, from_hex}
use fossil_headers_db.Types.RoundTrip.{IsValid, new_iff}
use fossil_headers_db.Rpc.{BlockHeader, BlockHeaderWithEmptyTransaction}
use fossil_headers_db.Rpc.Client.{HttpReply, make_rpc_call, is_fatal, make_retrying_rpc_call}
use fossil_headers_db.Rpc.Client.Retries.{IsRetried, make_retrying_rpc_call-IsRetried}
use fossil_headers_db.Rpc.Calls.{
  RpcRequest, finalized_request, number_request, read_number, client_latest_finalized,
  get_connection_string, call_node, get_full_block_by_number,
}

from_hex-IsValid : (hex : Text) (b : BlockNumber) → from_hex hex ≡ ok b → IsValid b
unfolding from_hex
from_hex-IsValid hex b h = elim (Result-cases (from_str_radix i64_half 16 (strip_0x hex))) [
  | inr (e, p) ↦ absurd (cc (rw p at h))
  | inl (v, p) ↦ let (same, valid) = (new_iff v b).0 (rw p at h) in rw same valid
]

read_number-reads :
    {A : Type 0} (message : Text) (number : A → Text) (r : Result BlockchainError A)
    (b : BlockNumber)
    → read_number message number r ≡ ok b
    → (header : A) × (r ≡ ok header) × (from_hex (number header) ≡ ok b)
unfolding read_number
read_number-reads message number (ok header) b h = (header, refl, h)
read_number-reads message number (err e) b h = cc

-- A block that the node has answered with at some attempt.
abbrev pub Answered :
    {A : Type 0} → (RpcRequest → ℕ → HttpReply A) → (A → Text) → ℕ → BlockNumber → Type 0
Answered {A} reply number max_retries b =
    (attempt : ℕ) × (header : A) × (attempt ≤ max_retries)
    × (make_rpc_call (reply finalized_request attempt) ≡ ok header)
    × (from_hex (number header) ≡ ok b)

abbrev pub unset_variable : BlockchainError
unset_variable = configuration (text "NODE_CONNECTION_STRING") (text "Environment variable not set")

module _ (debug : BlockchainError → Text) where
  -- Where the client reports a finalized block, its number is valid, and the node has answered the
  -- request for the finalized block, within the retries, with a header of this number.
  pub client_latest_finalized-Answered :
      (reply : RpcRequest → ℕ → HttpReply BlockHeader) (max_retries : ℕ) (b : BlockNumber)
      → (client_latest_finalized debug reply max_retries).outcome ≡ ok b
      → IsValid b × Answered reply (λ h. h.number) max_retries b
  unfolding client_latest_finalized
  client_latest_finalized-Answered reply max_retries b h =
      let call : ℕ → Result BlockchainError BlockHeader =
        λ n. make_rpc_call (reply finalized_request n) in
      let (header, found, number) =
        read_number-reads _ _ (make_retrying_rpc_call debug call max_retries).outcome b h in
      let retried : IsRetried debug call max_retries
          (make_retrying_rpc_call debug call max_retries) =
        make_retrying_rpc_call-IsRetried debug call max_retries in
      (
        from_hex-IsValid header.number b number,
        (retried.last, header, retried.within, (sym retried.outcome ∙ found), number),
      )

  -- Without the variable NODE_CONNECTION_STRING, where the text of the configuration's error has
  -- neither mark of a fatal error, a block is asked for six times, with five pauses, before the
  -- error of the configuration is returned.
  pub get_full_block_by_number_unset :
      (reply : RpcRequest → ℕ → HttpReply BlockHeaderWithEmptyTransaction) (b : BlockNumber)
      → is_fatal debug (λ n. call_node debug none (reply (number_request b) n)) 5 unset_variable
        ≡ false
      → let c = get_full_block_by_number debug none reply b in
        (c.made ≡ 6) × (length c.slept ≡ 5) × (c.outcome ≡ err unset_variable)
  unfolding get_full_block_by_number call_node get_connection_string
  get_full_block_by_number_unset reply b mild =
      let call : ℕ → Result BlockchainError BlockHeaderWithEmptyTransaction =
        λ n. call_node debug none (reply (number_request b) n) in
      let retried : IsRetried debug call 5 (make_retrying_rpc_call debug call 5) =
        make_retrying_rpc_call-IsRetried debug call 5 in
      elim (retried.final _ retried.outcome) [
        | inl fatal ↦ absurd (cc (fatal, mild))
        | inr last ↦ (rw last at retried.made, (retried.pauses ∙ last), retried.outcome)
      ]
