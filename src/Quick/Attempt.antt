-- ===== src/Quick/Attempt.antt =====
-- src/indexer/quick_service.rs: one attempt at a range, `fetch_and_store_blocks`.
use fossil_headers_db.Prelude.{
  ℕ, ◌+◌, ℤ, pos, eqb_ℤ, eqb_ℤ→eq, ◌≡◌, refl, ◌∙◌, ◌⊎◌, inl, inr, true, List, [], ◌∷◌, arith,
  length, is_empty, Bool-cases, ◌==◌,
}
use fossil_headers_db.Prelude.Machine.{add_i64}
use fossil_headers_db.Result.{Result, ok, err, Result-cases}
use fossil_headers_db.Errors.{BlockchainError, Report}
use fossil_headers_db.Utils.{convert_hex_string_to_i64}
use fossil_headers_db.Config.Quick.{QuickIndexConfig}
use fossil_headers_db.Rpc.{BlockHeader}
use fossil_headers_db.Database.Action.{Env, World, query, ask_blocks, continue, map_fault}
use fossil_headers_db.Repositories.Lookup.{block_key, keys}
use fossil_headers_db.Blocks.{numbered, expected_count}
use fossil_headers_db.Quick.{
  fetch_block_headers, store_block_headers, verify_blocks_stored, fetch_and_store_blocks,
}
use fossil_headers_db.Quick.Responses.{collect, process_rpc_responses, join_all}
use fossil_headers_db.Quick.Transaction.{Advanced, Stores, store_block_headers-Stores}

abbrev pub Answers : Type 0
Answers = List (Result BlockchainError BlockHeader)

-- The header that is collected at a position has the number of that position.
pub collect_number :
    (s : ℤ) (i : ℕ) (h : BlockHeader) (rs : Answers) (out : List BlockHeader × List ℤ)
    → collect s i (ok h ∷ rs) ≡ ok out
    → (rest : List BlockHeader × List ℤ) × (collect s (i + 1) rs ≡ ok rest)
      × (out ≡ (h ∷ rest.0, rest.1))
      × (block_key h ≡ add_i64 s (pos i))
unfolding collect block_key
collect_number s i h rs out e = elim (Result-cases (convert_hex_string_to_i64 h.number)) [
  | inr (bad, p) ↦ absurd (cc (rw (p, collect) at e))
  | inl (n, p) ↦ elim (Bool-cases (eqb_ℤ n (add_i64 s (pos i)))) [
    | inr other ↦ absurd (cc (rw (p, other, collect) at e))
    | inl same ↦ elim (Result-cases (collect s (i + 1) rs)) [
      | inr (bad, q) ↦ absurd (cc (rw (p, same, q, collect) at e))
      | inl (rest, q) ↦
          (rest, q, cc (rw (p, same, q) at e), rw p (eqb_ℤ→eq n (add_i64 s (pos i)) same))
    ]
  ]
]

-- Where no block failed, the headers have the numbers of the positions.
collect-keys :
    (s : ℤ) (i : ℕ) (rs : Answers) (out : List BlockHeader × List ℤ)
    → collect s i rs ≡ ok out
    → is_empty out.1 ≡ true
    → keys out.0 ≡ numbered s i (length rs)
unfolding collect keys numbered
collect-keys s i [] out e none_failed = ground arith
collect-keys s i (ok h ∷ rs) out e none_failed =
    let (rest, p, same, number) = collect_number s i h rs out e in
    let empty_rest : is_empty rest.1 ≡ true = rw same at none_failed in
    rw same (cc (number, collect-keys s (i + 1) rs rest p empty_rest))
collect-keys s i (err bad ∷ rs) out e none_failed = elim (Result-cases (collect s (i + 1) rs)) [
  | inr (worse, p) ↦ cc (rw (p, collect) at e)
  | inl (rest, p) ↦
      let same : out ≡ (rest.0, add_i64 s (pos i) ∷ rest.1) = cc (rw p at e) in
      cc (rw same at none_failed)
]

-- What `process_rpc_responses` accepts: one header for each number of the range, in order.
abbrev pub Covers : ℤ → ℤ → List BlockHeader → Type 0
Covers s e hs = (k : ℕ) × (expected_count s e ≡ ok k) × (keys hs ≡ numbered s 0 k)

process_rpc_responses-Covers :
    (rs : Answers) (s e : ℤ) (hs : List BlockHeader)
    → process_rpc_responses rs s e ≡ ok hs
    → Covers s e hs
unfolding process_rpc_responses
process_rpc_responses-Covers rs s e hs h = elim (Result-cases (expected_count s e)) [
  | inr (bad, p) ↦ absurd (cc (rw (p, process_rpc_responses) at h))
  | inl (k, p) ↦ elim (Bool-cases (length rs == k)) [
    | inr other ↦ absurd (cc (rw (p, other, process_rpc_responses) at h))
    | inl count ↦ elim (Result-cases (collect s 0 rs)) [
      | inr (bad, q) ↦ absurd (cc (rw (p, count, q, process_rpc_responses) at h))
      | inl (out, q) ↦ elim (Bool-cases (is_empty out.1)) [
        | inr some_failed ↦ absurd (cc (rw (p, count, q, some_failed, process_rpc_responses) at h))
        | inl none_failed ↦ elim (Bool-cases (length out.0 == k)) [
          | inr short ↦
              absurd (cc (rw (p, count, q, none_failed, short, process_rpc_responses) at h))
          | inl all ↦
              let same : out.0 ≡ hs = cc (rw (p, count, q, none_failed, all) at h) in
              let size : length rs ≡ k = ground arith in
              (k, p, rw (← same, ← size) (collect-keys s 0 rs out q none_failed))
        ]
      ]
    ]
  ]
]

-- What an attempt leaves: nothing changed, or the whole range is stored and recorded.
abbrev pub Attempted : ℤ → ℤ → World → World → Type 0
Attempted s e w w' =
    (w'.tables ≡ w.tables)
    ⊎ ((hs : List BlockHeader) × Covers s e hs × Advanced hs e w.tables w'.tables)

module _ (env : Env) (config : QuickIndexConfig) where
  pub verify_blocks_stored-tables :
      (s e : ℤ) (w : World) → (verify_blocks_stored env config s e w).1.tables ≡ w.tables
  unfolding verify_blocks_stored query
  verify_blocks_stored-tables s e w = ground arith

  verified :
      (hs : List BlockHeader) (s e : ℤ) (w v : World) (m : Result Report (Unit {0}) × World)
      (f : Report → Report)
      → Covers s e hs
      → v.tables ≡ w.tables
      → Stores hs e v m
      → Attempted s e w
          (continue m.0 (λ _. map_fault f (verify_blocks_stored env config s e)) m.1).1
  verified hs s e w v (err bad, u) f covers same kept = inl (kept ∙ same)
  verified hs s e w v (ok a, u) f covers same adv = inr (
    hs,
    covers,
    record {
      now = adv.now;
      blocks = λ n. rw (verify_blocks_stored-tables s e u, adv.blocks n, same) refl;
      metadata = rw (verify_blocks_stored-tables s e u, adv.metadata, same) refl;
    },
  )

  -- Whatever the node answers and whenever a statement is refused, an attempt at a range leaves the
  -- tables as they were, or has stored headers whose numbers are exactly those of the range, in
  -- order, and has recorded the end of the range as the latest block in every row of the metadata.
  pub fetch_and_store_blocks-Attempted :
      (range : List ℤ) (s e : ℤ) (w : World)
      → Attempted s e w (fetch_and_store_blocks env config range s e w).1
  unfolding fetch_and_store_blocks fetch_block_headers ask_blocks
  fetch_and_store_blocks-Attempted range s e w =
      let v : World = record w { tick = w.tick + 1 } in
      elim (Result-cases (join_all (env.fetch w.tick) range)) [
        | inr (bad, p) ↦ rw p (inl refl)
        | inl (rs, p) ↦ elim (Result-cases (process_rpc_responses rs s e)) [
          | inr (bad, q) ↦ rw (p, q) (inl refl)
          | inl (hs, q) ↦
              rw (p, q)
                (verified hs s e w v (store_block_headers env config hs e v) _
                  (process_rpc_responses-Covers rs s e hs q) refl
                  (store_block_headers-Stores env config hs e v))
        ]
      ]
