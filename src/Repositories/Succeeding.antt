-- ===== src/Repositories/Succeeding.antt =====
-- src/repositories/block_header.rs: when the inserts succeed.
use fossil_headers_db.Prelude.{
  if◌then◌else◌, false, none, ◌≡◌, refl, inl, inr, Bool, true, List, [], ◌∷◌, ◌++◌, ℕ, Bool-cases,
  is_empty,
}
use fossil_headers_db.Result.{ok, traverse, traverse-append}
use fossil_headers_db.Errors.{BlockchainError}
use fossil_headers_db.Blocks.Sorted.{All}
use fossil_headers_db.Rpc.{BlockHeader, Transaction, try_convert_full_tx_vector}
use fossil_headers_db.Database.Rows.{BlockHeaderDto, TransactionDto}
use fossil_headers_db.Database.Action.{Action, Env, World, execute}
use fossil_headers_db.Repositories.Convert.{
  convert_rpc_blockheader_to_dto, convert_rpc_transaction_to_dto, format_headers,
  format_with_transactions, format_transactions,
}
use fossil_headers_db.Repositories.Headers.{
  insert_block_header_only_query, insert_block_header_query, insert_block_txs_query,
}

-- The transactions that a header carries can be stored.
pub record CarriesTransactions (h : BlockHeader) : Type 0 where
  pub transactions : List Transaction
  pub dtos : List TransactionDto
  pub full : try_convert_full_tx_vector h.transactions ≡ ok transactions
  pub readable : format_transactions transactions ≡ ok dtos

-- A header that can be stored, with its transactions where those are wanted.
pub record IsStorable (with_txs : Bool) (h : BlockHeader) : Type 0 where
  pub dto : BlockHeaderDto
  pub converts : convert_rpc_blockheader_to_dto h ≡ ok dto
  pub carries : with_txs ≡ true → CarriesTransactions h

abbrev pub AreStorable : Bool → List BlockHeader → Type 0
AreStorable with_txs = All (IsStorable with_txs)

format_headers-succeeds :
    (with_txs : Bool) (hs : List BlockHeader)
    → AreStorable with_txs hs
    → (ds : List BlockHeaderDto) × (format_headers hs ≡ ok ds)
unfolding format_headers traverse
format_headers-succeeds b [] s = ([], refl)
format_headers-succeeds b (h ∷ hs) (s, ss) =
    let (ds, p) = format_headers-succeeds b hs ss in
    let rest : traverse convert_rpc_blockheader_to_dto hs ≡ ok ds = p in
    (s.dto ∷ ds, rw (s.converts, rest) refl)

-- Whole loops over storable headers succeed, and the transactions that they collect can be stored.
format_with_transactions-succeeds :
    (hs : List BlockHeader)
    → AreStorable true hs
    → (f : List BlockHeaderDto × List Transaction) × (ds : List TransactionDto)
      × (format_with_transactions hs ≡ ok f)
      × (format_transactions f.1 ≡ ok ds)
unfolding format_with_transactions format_transactions traverse
format_with_transactions-succeeds [] s = (([], []), [], refl, refl)
format_with_transactions-succeeds (h ∷ hs) (s, ss) =
    let (f, ds, p, q) = format_with_transactions-succeeds hs ss in
    let c : CarriesTransactions h = s.carries refl in
    let (es, r) =
      traverse-append convert_rpc_transaction_to_dto c.transactions f.1 c.dtos ds c.readable q in
    ((s.dto ∷ f.0, c.transactions ++ f.1), es, rw (s.converts, c.full, p) refl, r)

module _ (env : Env) where
  abbrev pub inserting : Bool → List BlockHeader → Action BlockchainError (Unit {0})
  inserting b hs =
      if b then insert_block_header_query env hs else insert_block_header_only_query env hs

module _ (env : Env) (unfailing : (t : ℕ) → env.fault t ≡ none) where
  txs-succeeds :
      (txs : List Transaction) (ds : List TransactionDto) (w : World)
      → format_transactions txs ≡ ok ds
      → (insert_block_txs_query env txs w).0 ≡ ok tt
  unfolding insert_block_txs_query execute
  txs-succeeds txs ds w h = rw (h, unfailing w.tick) refl

  pub only-succeeds :
      (b : Bool) (hs : List BlockHeader) (w : World)
      → AreStorable b hs
      → (insert_block_header_only_query env hs w).0 ≡ ok tt
  unfolding insert_block_header_only_query execute
  only-succeeds b hs w s =
      let (ds, p) = format_headers-succeeds b hs s in rw (p, unfailing w.tick) refl

  pub full-succeeds :
      (hs : List BlockHeader) (w : World)
      → AreStorable true hs
      → (insert_block_header_query env hs w).0 ≡ ok tt
  unfolding insert_block_header_query execute
  full-succeeds hs w s =
      let (f, ds, p, q) = format_with_transactions-succeeds hs s in
      elim (Bool-cases (is_empty f.1)) [
        | inl none_left ↦ rw (p, unfailing w.tick, none_left) refl
        | inr some_left ↦ rw (p, unfailing w.tick, some_left) (txs-succeeds f.1 ds _ q)
      ]

  pub inserting-succeeds :
      (b : Bool) (hs : List BlockHeader) (u : World)
      → AreStorable b hs
      → (inserting env b hs u).0 ≡ ok tt
  inserting-succeeds true hs u s = full-succeeds hs u s
  inserting-succeeds false hs u s = only-succeeds false hs u s
