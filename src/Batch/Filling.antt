-- ===== src/Batch/Filling.antt =====
-- src/indexer/batch_service.rs, `fill_missing_blocks`: what filling some blocks leaves behind.
use fossil_headers_db.Prelude.{
  ℕ, zero, suc, ◌+◌, ◌*◌, ◌-◌, ℤ, eqb_ℤ, eqb_ℤ→eq, ◌≡◌, refl, ◌∙◌, inl, inr, Bool, ◌||◌, List, [],
  ◌∷◌, arith, Bool-cases, Option-cases, ltb, ◌==◌, if◌then◌else◌,
}
use fossil_headers_db.Result.{Result, ok, err, Result-cases}
use fossil_headers_db.Errors.{Report, blockchain, SqlxError}
use fossil_headers_db.Utils.{convert_hex_string_to_i64}
use fossil_headers_db.Types.{BlockNumber}
use fossil_headers_db.Config.Batch.{BatchIndexConfig}
use fossil_headers_db.Rpc.{BlockHeader}
use fossil_headers_db.Database.Rows.{stored, memb}
use fossil_headers_db.Database.Action.{
  Env, World, Joined, continue, map_fault, begin, commit, load_terminate, ask_tasks, sleep,
  sleep_millis,
}
use fossil_headers_db.Repositories.Headers.{
  insert_block_header_query, insert_block_header_only_query,
}
use fossil_headers_db.Repositories.Lookup.{block_key, keys}
use fossil_headers_db.Repositories.Storing.{Inserts, wrap-Inserts, only-Inserts, full-Inserts}
use fossil_headers_db.Blocks.{sort_headers}
use fossil_headers_db.Blocks.Ranges.{memb-sort_headers}
use fossil_headers_db.Batch.{
  store_gap_blocks, fill_from, fill_missing_blocks, try_fetch_missing_blocks, fetch_specific_blocks,
  apply_fetch_retry_backoff, fetch_retry_backoff,
}
use fossil_headers_db.Batch.Responses.{
  TaskResult, header, request_failed, task_failed, Fetched, ended, fetch_tasks, check_number,
  validate_block_header, process_single_block_response, add_response,
  process_specific_block_responses,
}
use fossil_headers_db.Batch.Missing.{block_values}

-- A header that is accepted for a number has that number.
accepted_number :
    (r : TaskResult) (n : ℤ) (h : BlockHeader)
    → process_single_block_response r n ≡ ok h
    → block_key h ≡ n
unfolding process_single_block_response validate_block_header check_number block_key
accepted_number (header g) n h e = elim (Result-cases (convert_hex_string_to_i64 g.number)) [
  | inr (bad, p) ↦ absurd (cc (rw (p, process_single_block_response) at e))
  | inl (m, p) ↦ elim (Bool-cases (eqb_ℤ m n)) [
    | inr other ↦ absurd (cc (rw (p, other, process_single_block_response) at e))
    | inl same ↦
        let whole : g ≡ h = cc (rw (p, same, process_single_block_response) at e) in
        rw (← whole) (rw p (eqb_ℤ→eq m n same))
  ]
]
accepted_number request_failed n h e = cc
accepted_number task_failed n h e = cc

-- Where no block failed, the headers are those of the blocks.
no_error-keys :
    (elapsed : BlockNumber → Bool) (fetch : BlockNumber → Joined) (bs : List BlockNumber)
    → (process_specific_block_responses (fetch_tasks elapsed fetch bs) bs).error_count ≡ 0
    → keys (process_specific_block_responses (fetch_tasks elapsed fetch bs) bs).block_headers
      ≡ block_values bs
unfolding process_specific_block_responses fetch_tasks add_response keys block_values
no_error-keys elapsed fetch [] e = refl
no_error-keys elapsed fetch (b ∷ bs) e =
    elim (Result-cases (process_single_block_response (ended (elapsed b) (fetch b)) b.value)) [
      | inl (h, p) ↦
          let rest = no_error-keys elapsed fetch bs (rw p at e) in
          rw p (cc (accepted_number (ended (elapsed b) (fetch b)) b.value h p, rest))
      | inr (bad, p) ↦ let counted = rw p at e in absurd (omega arith)
    ]

-- Filling is all or nothing: it stores the given numbers beside what was and keeps the metadata, or
-- it fails and changes no table.
abbrev pub Fills : List ℤ → World → Result Report (Unit {0}) × World → Type 0
Fills ns w (ok _, w') =
    ((n : ℤ) → stored n w'.tables.blockheaders ≡ (memb n ns || stored n w.tables.blockheaders))
    × (w'.tables.index_metadata ≡ w.tables.index_metadata)
Fills ns w (err e, w') = w'.tables ≡ w.tables

module _ (env : Env) (config : BatchIndexConfig) where
  commit-Fills :
      (hs : List BlockHeader) (w v : World) (m : Result Report (Unit {0}) × World)
      (f : SqlxError → Report)
      → v.tables ≡ w.tables
      → v.pending ≡ w.tables
      → Inserts (sort_headers hs) v m
      → Fills (keys hs) w (continue m.0 (λ _. map_fault f (commit env)) m.1)
  unfolding commit
  commit-Fills hs w v (err e, u) f same open_tx ins = ins ∙ same
  commit-Fills hs w v (ok a, u) f same open_tx (kept, ins) =
      elim (Option-cases (env.fault u.tick)) [
        | inr (e, p) ↦ rw p (kept ∙ same)
        | inl fine ↦ rw fine (
          (λ n. rw (ins.blocks n) (rw open_tx (rw (memb-sort_headers n hs) refl))),
          rw (ins.metadata, open_tx) refl,
        )
      ]

  inserting :
      (hs : List BlockHeader) (v : World)
      → Inserts hs v (
          map_fault blockchain
            (if config.should_index_txs
              then insert_block_header_query env hs
              else insert_block_header_only_query env hs)
            v)
  inserting hs v = elim (Bool-cases config.should_index_txs) [
    | inl all ↦
        rw all
          (wrap-Inserts blockchain hs v (insert_block_header_query env hs) (full-Inserts env hs v))
    | inr only ↦ rw only (
        wrap-Inserts blockchain hs v (insert_block_header_only_query env hs)
          (only-Inserts env hs v))
  ]

  store_gap_blocks-Fills :
      (hs : List BlockHeader) (w : World) → Fills (keys hs) w (store_gap_blocks env config hs w)
  unfolding store_gap_blocks begin keys memb
  store_gap_blocks-Fills [] w = ((λ n. refl), refl)
  store_gap_blocks-Fills (h ∷ hs) w = elim (Option-cases (env.fault w.tick)) [
    | inr (e, p) ↦ rw p refl
    | inl fine ↦
        let v : World = record w { tick = w.tick + 1; pending = w.tables } in
        rw fine (commit-Fills (h ∷ hs) w v _ _ refl refl (inserting (sort_headers (h ∷ hs)) v))
  ]

  fill_from-Fills :
      (left round : ℕ) (bs : List BlockNumber) (w : World)
      → Fills (block_values bs) w (fill_from env config left round bs w)
  unfolding fill_from load_terminate try_fetch_missing_blocks fetch_specific_blocks ask_tasks
      apply_fetch_retry_backoff sleep sleep_millis
  fill_from-Fills zero round bs w = refl
  fill_from-Fills (suc left) round bs w =
      let t : ℕ = w.tick + 1 in
      let f : Fetched =
        process_specific_block_responses (fetch_tasks (env.elapsed t) (env.fetch t) bs) bs in
      let v : World = record w { tick = t + 1 } in
      elim (Bool-cases (env.terminated w.tick)) [
        | inl stop ↦ rw stop refl
        | inr go ↦ elim (Bool-cases (ltb 0 f.error_count)) [
          | inr whole ↦
              let none_failed : f.error_count ≡ 0 = ground arith in
              rw (go, whole)
                (rw (no_error-keys (env.elapsed t) (env.fetch t) bs none_failed) at
                  (store_gap_blocks-Fills f.block_headers v))
          | inl some_failed ↦ elim (Bool-cases (round == config.max_retries - 1)) [
            | inl last ↦ rw (go, some_failed, last) refl
            | inr again ↦
                rw (go, some_failed, again)
                  (fill_from-Fills left (round + 1) bs
                    (record v { slept = (fetch_retry_backoff round * 1000) ∷ w.slept }))
          ]
        ]
      ]

  -- Filling some blocks is all or nothing, whatever the node answers and whenever a statement is
  -- refused: it fails and leaves the tables as they were, or the stored blocks are those that were
  -- and all of the given ones, and the metadata is as it was.
  pub fill_missing_blocks-Fills :
      (bs : List BlockNumber) (w : World)
      → Fills (block_values bs) w (fill_missing_blocks env config bs w)
  unfolding fill_missing_blocks
  fill_missing_blocks-Fills bs w = fill_from-Fills config.max_retries 0 bs w
