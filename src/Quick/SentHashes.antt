-- ===== src/Quick/SentHashes.antt =====
-- src/rpc/mod.rs and src/indexer/quick_service.rs: headers that carry hashes in place of their
-- transactions, from the node's answers to the rows that are to be inserted.
use fossil_headers_db.Prelude.{
  ℕ, ◌+◌, ℤ, pos, ◌≡◌, refl, sym, inl, inr, false, List, [], ◌∷◌, arith, Bool-cases, is_empty,
  length, ◌==◌,
}
use fossil_headers_db.Prelude.Machine.{add_i64}
use fossil_headers_db.Result.{Result, ok, err, traverse, traverse-cons, Result-cases}
use fossil_headers_db.Text.{Text, text}
use fossil_headers_db.Errors.{BlockchainError, internal}
use fossil_headers_db.Types.{BlockNumber, from_trusted}
use fossil_headers_db.Rpc.{
  BlockHeader, BlockTransaction, hash_only, try_from, try_convert_full_tx_vector,
}
use fossil_headers_db.Database.Action.{Env, Joined, joined, panicked}
use fossil_headers_db.Repositories.Convert.{
  convert_rpc_blockheader_to_dto, format_with_transactions,
}
use fossil_headers_db.Blocks.{expected_count, sort_headers}
use fossil_headers_db.Blocks.Sorted.{All}
use fossil_headers_db.Quick.Responses.{
  unjoin, join_all, collect, process_rpc_responses, verify_order, first_number,
}
use fossil_headers_db.Quick.Attempt.{collect_number}
use fossil_headers_db.Quick.Transaction.{verify_order-sorts}

-- A header with a transaction, of which the node has sent the hash.
pub record HasHash (h : BlockHeader) : Type 0 where
  pub first : Text
  pub others : List BlockTransaction
  pub sent : h.transactions ≡ hash_only first ∷ others

-- Each block that the node sends has a transaction, and the node sends its hash.
abbrev pub SendsHashes : Env → Type 0
SendsHashes env =
    (t : ℕ) (b : BlockNumber) (h : BlockHeader) → env.fetch t b ≡ joined (ok h) → HasHash h

-- The headers among some responses.
abbrev pub AllAnswers : List (Result BlockchainError BlockHeader) → Type 0
AllAnswers [] = Unit {0}
AllAnswers (ok h ∷ rs) = HasHash h × AllAnswers rs
AllAnswers (err e ∷ rs) = AllAnswers rs

pub join_all-AllAnswers :
    (fetch : BlockNumber → Joined) (ns : List ℤ) (rs : List (Result BlockchainError BlockHeader))
    → ((b : BlockNumber) (h : BlockHeader) → fetch b ≡ joined (ok h) → HasHash h)
    → join_all fetch ns ≡ ok rs
    → AllAnswers rs
unfolding join_all traverse
join_all-AllAnswers fetch [] [] sends e = tt
join_all-AllAnswers fetch [] (r ∷ rs) sends e = cc
join_all-AllAnswers fetch (n ∷ ns) zs sends e =
    let (y, ys, p, q, same) = traverse-cons (λ k. unjoin (fetch (from_trusted k))) n ns zs e in
    rw same
      (answered (fetch (from_trusted n)) refl y ys p (join_all-AllAnswers fetch ns ys sends q))
  where
    answered :
        (j : Joined)
        → fetch (from_trusted n) ≡ j
        → (y : Result BlockchainError BlockHeader) (ys : List (Result BlockchainError BlockHeader))
        → unjoin j ≡ ok y
        → AllAnswers ys
        → AllAnswers (y ∷ ys)
    answered (joined r) e (ok h) ys p rest = (sends (from_trusted n) h (rw e (cc p)), rest)
    answered (joined r) e (err bad) ys p rest = rest
    answered panicked e y ys p rest = cc p

collect-All :
    (s : ℤ) (i : ℕ) (rs : List (Result BlockchainError BlockHeader))
    (out : List BlockHeader × List ℤ)
    → AllAnswers rs
    → collect s i rs ≡ ok out
    → All HasHash out.0
unfolding collect
collect-All s i [] out all e = let none_left : out ≡ ([], []) = cc in rw none_left tt
collect-All s i (ok h ∷ rs) out (here, all) e =
    let (rest, p, same, number) = collect_number s i h rs out e in
    rw same (here, collect-All s (i + 1) rs rest all p)
collect-All s i (err bad ∷ rs) out all e = elim (Result-cases (collect s (i + 1) rs)) [
  | inr (worse, p) ↦ cc (rw (p, collect) at e)
  | inl (rest, p) ↦
      let same : out ≡ (rest.0, add_i64 s (pos i) ∷ rest.1) = cc (rw p at e) in
      rw same (collect-All s (i + 1) rs rest all p)
]

pub process_rpc_responses-All :
    (rs : List (Result BlockchainError BlockHeader)) (s e : ℤ) (hs : List BlockHeader)
    → AllAnswers rs
    → process_rpc_responses rs s e ≡ ok hs
    → All HasHash hs
unfolding process_rpc_responses
process_rpc_responses-All rs s e hs all h = elim (Result-cases (expected_count s e)) [
  | inr (bad, p) ↦ absurd (cc (rw (p, process_rpc_responses) at h))
  | inl (k, p) ↦ elim (Bool-cases (length rs == k)) [
    | inr other ↦ absurd (cc (rw (p, other, process_rpc_responses) at h))
    | inl count ↦ elim (Result-cases (collect s 0 rs)) [
      | inr (bad, q) ↦ absurd (cc (rw (p, count, q, process_rpc_responses) at h))
      | inl (out, q) ↦
          let same : out.0 ≡ hs = ground (arith, rw (p, count, q) at h) in
          rw (← same) (collect-All s 0 rs out all q)
    ]
  ]
]

-- A header whose transactions are hashes cannot be stored with them.
pub format_hashes :
    (h : BlockHeader) (hs : List BlockHeader)
    → HasHash h
    → (e : BlockchainError) × (format_with_transactions (h ∷ hs) ≡ err e)
unfolding format_with_transactions try_convert_full_tx_vector traverse try_from
format_hashes h hs sent = elim (Result-cases (convert_rpc_blockheader_to_dto h)) [
  | inr (bad, p) ↦ (bad, rw p refl)
  | inl (dto, p) ↦ (internal (text "Cannot convert hash into Transaction"), rw (p, sent.sent) refl)
]

pub verify_order_nonempty :
    (hs sorted : List BlockHeader) (ending : ℤ)
    → verify_order hs ending ≡ ok sorted
    → is_empty sorted ≡ false
unfolding verify_order first_number
verify_order_nonempty [] [] ending e = absurd (cc (e))
verify_order_nonempty (h ∷ hs) [] ending e =
    let same : sort_headers (h ∷ hs) ≡ [] = sym (verify_order-sorts (h ∷ hs) [] ending e) in
    absurd (cc (rw (same, first_number) at e))
verify_order_nonempty hs (g ∷ gs) ending e = refl
