-- ===== src/Repositories/Lookup.antt =====
-- Which blocks are stored after the statements, and what the conversion keeps.
use fossil_headers_db.Prelude.{
  ℤ, pos, eqb_ℤ, ◌≡◌, refl, ◌||◌, List, [], ◌∷◌, ◌++◌, map, arith, inl, inr,
}
use fossil_headers_db.Result.{ok, or_else, Result-cases, traverse-cons}
use fossil_headers_db.Utils.{convert_hex_string_to_i64}
use fossil_headers_db.Rpc.{BlockHeader, Transaction, try_convert_full_tx_vector}
use fossil_headers_db.Database.Rows.{
  BlockHeaderDto, HeaderRow, row_of, stored, memb, upsert_header, upsert_headers,
}
use fossil_headers_db.Repositories.Convert.{
  convert_rpc_blockheader_to_dto, format_headers, format_with_transactions,
}

-- The key by which headers are sorted: the number, and 0 where it cannot be read.
unfoldable pub block_key : BlockHeader → ℤ
block_key h = or_else (convert_hex_string_to_i64 h.number) (pos 0)

unfoldable pub keys : List BlockHeader → List ℤ
keys [] = []
keys (h ∷ hs) = block_key h ∷ keys hs

unfoldable pub numbers : List HeaderRow → List ℤ
numbers [] = []
numbers (r ∷ rs) = r.number ∷ numbers rs

-- After an upsert a block is stored exactly if it was, or is the one put in.
pub stored-upsert_header :
    (n : ℤ) (r : HeaderRow) (rows : List HeaderRow)
    → stored n (upsert_header r rows) ≡ (eqb_ℤ r.number n || stored n rows)
unfolding stored upsert_header
stored-upsert_header n r [] = refl
stored-upsert_header n r (s ∷ rows) = ground (arith, stored-upsert_header n r rows)

-- After the upsert of some rows a block is stored exactly if it was or if one of the rows has its
-- number.
pub stored-upsert_headers :
    (n : ℤ) (rs rows : List HeaderRow)
    → stored n (upsert_headers rs rows) ≡ (memb n (numbers rs) || stored n rows)
unfolding memb numbers upsert_headers
stored-upsert_headers n [] rows = refl
stored-upsert_headers n (r ∷ rs) rows =
    ground (arith, stored-upsert_headers n rs (upsert_header r rows), stored-upsert_header n r rows)

-- A row has the number of its header.
convert_number :
    (h : BlockHeader) (d : BlockHeaderDto)
    → convert_rpc_blockheader_to_dto h ≡ ok d
    → d.number ≡ block_key h
unfolding convert_rpc_blockheader_to_dto block_key
convert_number h d e = ground arith

pub format_headers-numbers :
    (hs : List BlockHeader) (ds : List BlockHeaderDto)
    → format_headers hs ≡ ok ds
    → numbers (map row_of ds) ≡ keys hs
unfolding format_headers numbers keys row_of
format_headers-numbers [] ds e = ground arith
format_headers-numbers (h ∷ hs) ds e =
    let (d, rest, p, q, same) = traverse-cons convert_rpc_blockheader_to_dto h hs ds e in
    rw same (cc (convert_number h d p, format_headers-numbers hs rest q))

pub format_with_transactions-numbers :
    (hs : List BlockHeader) (f : List BlockHeaderDto × List Transaction)
    → format_with_transactions hs ≡ ok f
    → numbers (map row_of f.0) ≡ keys hs
unfolding format_with_transactions numbers keys row_of
format_with_transactions-numbers [] f e = ground arith
format_with_transactions-numbers (h ∷ hs) f e =
    elim (Result-cases (convert_rpc_blockheader_to_dto h)) [
      | inr (bad, p) ↦ cc (rw (p, format_with_transactions) at e)
      | inl (d, p) ↦ elim (Result-cases (try_convert_full_tx_vector h.transactions)) [
        | inr (bad, q) ↦ cc (rw (p, q, format_with_transactions) at e)
        | inl (txs, q) ↦ elim (Result-cases (format_with_transactions hs)) [
          | inr (bad, r) ↦ cc (rw (p, q, r) at e)
          | inl (rest, r) ↦
              let same : f ≡ (d ∷ rest.0, txs ++ rest.1) = cc (rw (p, q, r) at e) in
              rw same (cc (convert_number h d p, format_with_transactions-numbers hs rest r))
        ]
      ]
    ]
