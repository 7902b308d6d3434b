-- ===== src/Commands/Tasks.antt =====
-- src/commands/mod.rs: the tasks that fetch and write one block each. The tasks of a batch write in
-- transactions of their own; they are run here one after the other, in the order of the list.
use fossil_headers_db.Prelude.{
  ℕ, zero, suc, ◌+◌, ◌-◌, ◌*◌, ◌^◌, Bool, true, false, List, [], ◌∷◌, ◌++◌, ◌==◌, if◌then◌else◌,
}
use fossil_headers_db.Result.{Result, ok, err}
use fossil_headers_db.Text.{Text, text, show_i64}
use fossil_headers_db.Errors.{BlockchainError, block_not_found, internal}
use fossil_headers_db.Types
use fossil_headers_db.Types.{BlockNumber}
use fossil_headers_db.Database.Action.{
  Action, Env, ◌>>=◌, ◌>>◌, pure, raise, attempt, sleep, ask_header,
}
use fossil_headers_db.Db.{write_blockheader}

-- How a task fails: with an error, or cut off by its timer or a panic.
pub data TaskError : Type 0 where
  returned : BlockchainError → TaskError
  cut_off : TaskError

-- `MAX_RETRIES` of this file.
abbrev pub max_attempts : ℕ
max_attempts = 10

abbrev pub given_up : Text → BlockNumber → TaskError
given_up purpose b = returned (
    block_not_found (
      text "Failed to retrieve block "
      ++ (show_i64 b.value ++ (text " after 10 attempts" ++ purpose))))

-- `apply_exponential_backoff`.
unfoldable pub apply_exponential_backoff : {E : Type 0} → ℕ → Action E (Unit {0})
apply_exponential_backoff n = sleep ((n + 1) ^ 2 * 5)

-- The number of tasks that succeeded, and the blocks of the others.
pub record Tally : Type 0 where
  pub successful_count : ℕ
  pub failed_blocks : List BlockNumber

abbrev pub add_result : {E : Type 0} → Result E (Unit {0}) → BlockNumber → Tally → Tally
add_result (ok a) b t = record t { successful_count = t.successful_count + 1 }
add_result (err e) b t = record t { failed_blocks = b ∷ t.failed_blocks }

module _ (env : Env) where
  -- Where a task waits, it may be cut off.
  unfoldable pub wait_point : Action TaskError (Unit {0})
  wait_point w =
      let w' = record w { tick = w.tick + 1 } in
      if env.cut w.tick then (err cut_off, w') else (ok tt, w')

  abbrev pub returning :
      {A : Type 0} → Action BlockchainError A → Action TaskError (Result BlockchainError A)
  returning m = wait_point >> attempt m

  abbrev pub given : {A : Type 0} → Result BlockchainError A → Action TaskError A
  given (ok a) = pure a
  given (err e) = raise (returned e)

  -- The attempts `i .. i + left` of `process_single_missing_block` and of `retry_block_retrieval`,
  -- which differ in a message.
  unfoldable pub fetch_and_write : Text → ℕ → ℕ → BlockNumber → Action TaskError (Unit {0})
  fetch_and_write purpose zero i b = raise (given_up [] b)
  fetch_and_write purpose (suc left) i b =
      let next = fetch_and_write purpose left (i + 1) b in
      do
        fetched ← returning (ask_header env b)
        elim fetched [
          | ok block ↦ do written ← returning (write_blockheader env block); given written
          | err e ↦
              if i == max_attempts - 1
              then raise (given_up purpose b)
              else do apply_exponential_backoff i; next
        ]

  unfoldable pub process_single_missing_block : BlockNumber → Action TaskError (Unit {0})
  process_single_missing_block = fetch_and_write [] max_attempts 0

  unfoldable pub retry_block_retrieval : BlockNumber → Action TaskError (Unit {0})
  retry_block_retrieval = fetch_and_write (text " during gap filling") max_attempts 0

  -- `attempt_block_processing`: whether the block is written.
  unfoldable pub attempt_block_processing : BlockNumber → Action TaskError Bool
  attempt_block_processing b = do
    fetched ← returning (ask_header env b)
    elim fetched [
      | err e ↦ pure false
      | ok block ↦ do
        written ← returning (write_blockheader env block)
        elim written [ ok a ↦ pure true | err e ↦ pure false ]
    ]

  -- The attempts `i .. i + left` of `process_block`.
  unfoldable pub process_from : ℕ → ℕ → BlockNumber → Action TaskError (Unit {0})
  process_from zero i b =
      raise (returned (internal (text "Failed to process block " ++ Types.display b)))
  process_from (suc left) i b =
      let next = process_from left (i + 1) b in
      do
        written ← attempt_block_processing b
        if written then pure tt else do apply_exponential_backoff i; next

  unfoldable pub process_block : BlockNumber → Action TaskError (Unit {0})
  process_block = process_from max_attempts 0

  -- `join_all` of the tasks of a batch, and the count of their results. A task may be cut off at its
  -- end as well, when its work is done.
  unfoldable pub run_tasks :
      (BlockNumber → Action TaskError (Unit {0})) → List BlockNumber → Action BlockchainError Tally
  run_tasks task [] = pure (record { successful_count = 0; failed_blocks = [] })
  run_tasks task (b ∷ bs) = do
    result ← attempt (task b >> wait_point)
    tally ← run_tasks task bs
    pure (add_result result b tally)

  unfoldable pub process_missing_blocks_batch : List BlockNumber → Action BlockchainError Tally
  process_missing_blocks_batch = run_tasks process_single_missing_block

  unfoldable pub process_null_blocks_batch : List BlockNumber → Action BlockchainError Tally
  process_null_blocks_batch = run_tasks retry_block_retrieval

  unfoldable pub process_block_batch : List BlockNumber → Action BlockchainError Tally
  process_block_batch = run_tasks process_block
