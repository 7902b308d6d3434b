-- ===== src/Quick/Ending.antt =====
-- src/indexer/quick_service.rs, `index`: a service that is told to stop ends.
use fossil_headers_db.Prelude.{
  ℕ, zero, suc, ◌+◌, ◌*◌, ◌^◌, ◌≤◌, ℤ, pos, ◌≡◌, refl, inl, inr, Bool, true, false, List, ◌∷◌, some,
  arith, Bool-cases, leb, is_empty, if◌then◌else◌,
}
use fossil_headers_db.Prelude.Machine.{add_i64}
use fossil_headers_db.Result.{Result, ok, err, is_ok, Result-cases}
use fossil_headers_db.Errors.{Report, sqlx, from_sqlx}
use fossil_headers_db.Config.Quick.{QuickIndexConfig}
use fossil_headers_db.Rpc.{BlockHeader, Transaction}
use fossil_headers_db.Database.Action.{
  Env, World, Action, continue, pure, map_fault, lift, ◌>>=◌, query, begin, execute, commit,
  load_terminate, ask_finalized, ask_blocks, sleep, sleep_millis,
}
use fossil_headers_db.Repositories.Headers.{
  put_headers, insert_block_txs_query, insert_block_header_query, insert_block_header_only_query,
}
use fossil_headers_db.Repositories.Convert.{format_with_transactions}
use fossil_headers_db.Repositories.Metadata.{
  get_index_metadata, update_latest_quick_index_block_number_query,
}
use fossil_headers_db.Quick.{
  get_last_indexed_block, get_latest_finalized_block, has_new_blocks, calculate_ending_block,
  wait_for_new_blocks, fetch_block_headers, insert_headers, finish_store, store_block_headers,
  verify_blocks_stored, fetch_and_store_blocks, log_indexing_success, apply_exponential_backoff,
  retry_from, retry_with_backoff, index_block_range, index_new_blocks, process_indexing_cycle,
  index,
}
use fossil_headers_db.Quick.Responses.{verify_order}

-- The count of questions does not go back.
abbrev pub Forward : {E A : Type 0} → Action E A → Type 0
Forward f = (w : World) → w.tick ≤ (f w).1.tick

pub bind-Forward :
    {E A B : Type 0} (m : Action E A) (f : A → Action E B)
    → Forward m
    → ((a : A) → Forward (f a))
    → Forward (m >>= f)
bind-Forward {E} {A} {B} m f g h w = onward (m w) (g w)
  where
    onward : (r : Result E A × World) → w.tick ≤ r.1.tick → w.tick ≤ (continue r.0 f r.1).1.tick
    onward (ok a, v) k = let next : v.tick ≤ (f a v).1.tick = h a v in omega arith
    onward (err e, v) k = k

pub if-Forward :
    {E A : Type 0} (b : Bool) (m k : Action E A)
    → Forward m
    → Forward k
    → Forward (if b then m else k)
if-Forward true m k g h = g
if-Forward false m k g h = h

pub not_yet : {b : Bool} (limit t : ℕ) → (limit ≤ t → b ≡ true) → b ≡ false → t + 1 ≤ limit
not_yet limit t told go = elim (Bool-cases (leb limit t)) [
  | inl past ↦ let stop = told (ground arith) in cc
  | inr soon ↦ ground arith
]

module _ (env : Env) where
  txs-Forward : (txs : List Transaction) → Forward (insert_block_txs_query env txs)
  unfolding insert_block_txs_query execute
  txs-Forward txs w = ground arith

  pub only-Forward : (hs : List BlockHeader) → Forward (insert_block_header_only_query env hs)
  unfolding insert_block_header_only_query execute
  only-Forward hs w = ground arith

  pub full-Forward : (hs : List BlockHeader) → Forward (insert_block_header_query env hs)
  unfolding insert_block_header_query execute
  full-Forward hs =
      bind-Forward (lift (format_with_transactions hs)) _ (λ w. omega arith)
        (λ f.
          bind-Forward (map_fault from_sqlx (execute env (put_headers f.0))) _ (λ w. ground arith)
            (λ _.
              if-Forward (is_empty f.1) (pure tt) (insert_block_txs_query env f.1)
                (λ w. omega arith) (txs-Forward f.1)))

  module _ (config : QuickIndexConfig) where
    insert_headers-Forward : (hs : List BlockHeader) → Forward (insert_headers env config hs)
    unfolding insert_headers
    insert_headers-Forward hs =
        if-Forward config.should_index_txs (insert_block_header_query env hs)
          (insert_block_header_only_query env hs) (full-Forward hs) (only-Forward hs)

    finish_store-Forward : (e : ℤ) → Forward (finish_store env config e)
    unfolding finish_store update_latest_quick_index_block_number_query execute commit
    finish_store-Forward e w = ground arith

    store_block_headers-Forward :
        (hs : List BlockHeader) (e : ℤ) → Forward (store_block_headers env config hs e)
    unfolding store_block_headers begin
    store_block_headers-Forward hs e =
        bind-Forward (lift (verify_order hs e)) _ (λ w. omega arith)
          (λ sorted.
            bind-Forward (map_fault sqlx (begin env)) _ (λ w. ground arith)
              (λ _.
                bind-Forward (insert_headers env config sorted) _ (insert_headers-Forward sorted)
                  (λ _. finish_store-Forward e)))

    verify_blocks_stored-Forward : (s e : ℤ) → Forward (verify_blocks_stored env config s e)
    unfolding verify_blocks_stored query
    verify_blocks_stored-Forward s e w = ground arith

    fetch_block_headers-Forward :
        (range : List ℤ) (s e : ℤ) → Forward (fetch_block_headers env config range s e)
    unfolding fetch_block_headers ask_blocks
    fetch_block_headers-Forward range s e w = ground arith

    fetch_and_store_blocks-Forward :
        (range : List ℤ) (s e : ℤ) → Forward (fetch_and_store_blocks env config range s e)
    unfolding fetch_and_store_blocks
    fetch_and_store_blocks-Forward range s e =
        bind-Forward (fetch_block_headers env config range s e) _
          (fetch_block_headers-Forward range s e)
          (λ hs.
            bind-Forward (store_block_headers env config hs e) _ (store_block_headers-Forward hs e)
              (λ _. verify_blocks_stored-Forward s e))

    log_indexing_success-Forward : Forward (log_indexing_success env config)
    unfolding log_indexing_success query
    log_indexing_success-Forward w = ground arith

    retry_from-Forward :
        (left round : ℕ) (range : List ℤ) (s e : ℤ)
        → Forward (retry_from env config left round range s e)
    unfolding retry_from apply_exponential_backoff sleep sleep_millis load_terminate
    retry_from-Forward zero round range s e w = omega arith
    retry_from-Forward (suc left) round range s e w =
        let v : World = record w { tick = w.tick + 1 } in
        let m : Result Report (Unit {0}) × World = fetch_and_store_blocks env config range s e v in
        let stored : w.tick + 1 ≤ m.1.tick = fetch_and_store_blocks-Forward range s e v in
        let u : World = record m.1 { slept = (round ^ 2 * 5 * 1000) ∷ m.1.slept } in
        elim (Bool-cases (env.terminated w.tick)) [
          | inl stop ↦ rw stop (omega arith)
          | inr go ↦ elim (Bool-cases (is_ok m.0)) [
            | inl done ↦
                let logged = log_indexing_success-Forward m.1 in rw (go, done) (omega arith)
            | inr failed ↦
                let next = retry_from-Forward left (round + 1) range s e u in
                rw (go, failed) (omega arith)
          ]
        ]

    process_indexing_cycle-Forward : Forward (process_indexing_cycle env config)
    unfolding process_indexing_cycle get_last_indexed_block get_index_metadata query
        get_latest_finalized_block ask_finalized wait_for_new_blocks sleep sleep_millis
        index_new_blocks index_block_range retry_with_backoff
    process_indexing_cycle-Forward =
        bind-Forward (get_last_indexed_block env config) _ (λ w. ground arith)
          (λ l.
            bind-Forward (get_latest_finalized_block env config) _ (λ w. ground arith)
              (λ b.
                if-Forward (has_new_blocks env config l b) _ _
                  (retry_from-Forward config.max_retries 0 _ (add_i64 l (pos 1))
                    (calculate_ending_block env config l b))
                  (λ w. omega arith)))

    -- If the service is told to stop from the question `limit` on, then its loop ends, whatever the
    -- node answers and whenever a statement is refused: fuel for one round more than there are
    -- questions up to `limit` is enough.
    pub index_ends :
        (limit fuel : ℕ) (w : World)
        → ((t : ℕ) → limit ≤ t → env.terminated t ≡ true)
        → limit + 1 ≤ fuel + w.tick
        → 1 ≤ fuel
        → (r : Result Report (Unit {0})) × (w' : World) × (index env config fuel w ≡ some (r, w'))
    unfolding index load_terminate
    index_ends limit zero w told enough h = absurd (omega arith)
    index_ends limit (suc fuel) w told enough h =
        let w1 : World = record w { tick = w.tick + 1 } in
        let m : Result Report (Unit {0}) × World = process_indexing_cycle env config w1 in
        let later : w.tick + 1 ≤ m.1.tick = process_indexing_cycle-Forward w1 in
        elim (Bool-cases (env.terminated w.tick)) [
          | inl stop ↦ (ok tt, w1, rw (stop, index) refl)
          | inr go ↦ elim (Result-cases m.0) [
            | inr (bad, p) ↦ (err bad, m.1, rw (go, p, index) refl)
            | inl (done, p) ↦
                let before : w.tick + 1 ≤ limit = not_yet limit w.tick (told w.tick) go in
                rw (go, p, index) (index_ends limit fuel m.1 told (omega arith) (omega arith))
          ]
        ]
