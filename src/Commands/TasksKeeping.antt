-- ===== src/Commands/TasksKeeping.antt =====
-- src/commands/mod.rs: what the tasks of a batch keep, whatever fails.
use fossil_headers_db.Prelude.{
  ℕ, zero, suc, ◌+◌, ◌-◌, Bool, true, false, List, [], ◌∷◌, ◌==◌, if◌then◌else◌,
}
use fossil_headers_db.Result.{Result, ok, err}
use fossil_headers_db.Text.{Text, text}
use fossil_headers_db.Errors.{BlockchainError}
use fossil_headers_db.Types.{BlockNumber}
use fossil_headers_db.Rpc.{BlockHeaderWithEmptyTransaction}
use fossil_headers_db.Database.Action.{
  Env, World, Action, pure, raise, ask_header, attempt, ◌>>=◌, ◌>>◌,
}
use fossil_headers_db.Db.{write_blockheader}
use fossil_headers_db.Commands.Tasks.{
  TaskError, cut_off, add_result, max_attempts, given_up, apply_exponential_backoff, wait_point,
  returning, given, fetch_and_write, process_single_missing_block, retry_block_retrieval,
  attempt_block_processing, process_from, process_block, run_tasks, process_missing_blocks_batch,
  process_null_blocks_batch, process_block_batch,
}
use fossil_headers_db.Commands.Keeping.{
  Keeps-refl, if-Keeps, IsKeeping, bind-IsKeeping, if-IsKeeping, Result-IsKeeping, sleep-IsKeeping,
  write_blockheader-IsKeeping,
}

backoff-IsKeeping : (E : Type 0) (n : ℕ) → IsKeeping (apply_exponential_backoff {E = E} n)
unfolding apply_exponential_backoff
backoff-IsKeeping E n = sleep-IsKeeping E _

module _ (env : Env) where
  given-IsKeeping : {A : Type 0} (r : Result BlockchainError A) → IsKeeping (given env r)
  given-IsKeeping (ok a) w = Keeps-refl w.tables
  given-IsKeeping (err e) w = Keeps-refl w.tables

  wait_point-IsKeeping : IsKeeping (wait_point env)
  unfolding wait_point
  wait_point-IsKeeping w =
      let v : World = record w { tick = w.tick + 1 } in
      if-Keeps w.tables (env.cut w.tick) (err cut_off, v) (ok tt, v) (Keeps-refl w.tables)
        (Keeps-refl w.tables)

  returning-IsKeeping :
      {A : Type 0} (m : Action BlockchainError A) → IsKeeping m → IsKeeping (returning env m)
  returning-IsKeeping m keeps =
      bind-IsKeeping (wait_point env) (λ _. attempt m) wait_point-IsKeeping (λ _. keeps)

  ask_header-IsKeeping : (b : BlockNumber) → IsKeeping (ask_header env b)
  unfolding ask_header
  ask_header-IsKeeping b w = Keeps-refl w.tables

  fetch_and_write-IsKeeping :
      (purpose : Text) (left i : ℕ) (b : BlockNumber)
      → IsKeeping (fetch_and_write env purpose left i b)
  unfolding fetch_and_write
  fetch_and_write-IsKeeping purpose zero i b = λ w. Keeps-refl w.tables
  fetch_and_write-IsKeeping purpose (suc left) i b =
      let next = fetch_and_write env purpose left (i + 1) b in
      let again : Action TaskError (Unit {0}) = apply_exponential_backoff i >> next in
      let give_up : Action TaskError (Unit {0}) = raise (given_up purpose b) in
      let retry : Action TaskError (Unit {0}) = if i == max_attempts - 1 then give_up else again in
      let write : BlockHeaderWithEmptyTransaction → Action TaskError (Unit {0}) =
        λ block. returning env (write_blockheader env block) >>= given env in
      bind-IsKeeping (returning env (ask_header env b)) _
        (returning-IsKeeping (ask_header env b) (ask_header-IsKeeping b))
        (λ fetched.
          Result-IsKeeping fetched write (λ e. retry)
            (λ block.
              bind-IsKeeping (returning env (write_blockheader env block)) (given env)
                (returning-IsKeeping (write_blockheader env block)
                  (write_blockheader-IsKeeping env block))
                given-IsKeeping)
            (λ e.
              if-IsKeeping (i == max_attempts - 1) give_up again (λ w. Keeps-refl w.tables)
                (bind-IsKeeping (apply_exponential_backoff i) (λ _. next)
                  (backoff-IsKeeping TaskError i)
                  (λ _. fetch_and_write-IsKeeping purpose left (i + 1) b))))

  attempt_block-IsKeeping : (b : BlockNumber) → IsKeeping (attempt_block_processing env b)
  unfolding attempt_block_processing
  attempt_block-IsKeeping b =
      let report : Result BlockchainError (Unit {0}) → Action TaskError Bool =
        λ written. elim written [ ok a ↦ pure true | err e ↦ pure false ] in
      let write : BlockHeaderWithEmptyTransaction → Action TaskError Bool =
        λ block. returning env (write_blockheader env block) >>= report in
      bind-IsKeeping (returning env (ask_header env b)) _
        (returning-IsKeeping (ask_header env b) (ask_header-IsKeeping b))
        (λ fetched.
          Result-IsKeeping fetched write (λ e. pure false)
            (λ block.
              bind-IsKeeping (returning env (write_blockheader env block)) report
                (returning-IsKeeping (write_blockheader env block)
                  (write_blockheader-IsKeeping env block))
                (λ written.
                  Result-IsKeeping written (λ a. pure true) (λ e. pure false)
                    (λ a w. Keeps-refl w.tables) (λ e w. Keeps-refl w.tables)))
            (λ e w. Keeps-refl w.tables))

  process_from-IsKeeping : (left i : ℕ) (b : BlockNumber) → IsKeeping (process_from env left i b)
  unfolding process_from
  process_from-IsKeeping zero i b = λ w. Keeps-refl w.tables
  process_from-IsKeeping (suc left) i b =
      let next = process_from env left (i + 1) b in
      bind-IsKeeping (attempt_block_processing env b)
        (λ written. if written then pure tt else (apply_exponential_backoff i >> next))
        (attempt_block-IsKeeping b)
        (λ written.
          if-IsKeeping written (pure tt) (apply_exponential_backoff i >> next)
            (λ w. Keeps-refl w.tables)
            (bind-IsKeeping (apply_exponential_backoff i) (λ _. next)
              (backoff-IsKeeping TaskError i) (λ _. process_from-IsKeeping left (i + 1) b)))

  run_tasks-IsKeeping :
      (task : BlockNumber → Action TaskError (Unit {0})) (bs : List BlockNumber)
      → ((b : BlockNumber) → IsKeeping (task b))
      → IsKeeping (run_tasks env task bs)
  unfolding run_tasks
  run_tasks-IsKeeping task [] keeps = λ w. Keeps-refl w.tables
  run_tasks-IsKeeping task (b ∷ bs) keeps =
      bind-IsKeeping (attempt (task b >> wait_point env))
        (λ result. run_tasks env task bs >>= λ tally. pure (add_result result b tally))
        (bind-IsKeeping (task b) (λ _. wait_point env) (keeps b) (λ _. wait_point-IsKeeping))
        (λ result.
          bind-IsKeeping (run_tasks env task bs) (λ tally. pure (add_result result b tally))
            (run_tasks-IsKeeping task bs keeps) (λ tally w. Keeps-refl w.tables))

  -- The three batches.
  pub missing_batch-IsKeeping :
      (bs : List BlockNumber) → IsKeeping (process_missing_blocks_batch env bs)
  unfolding process_missing_blocks_batch process_single_missing_block
  missing_batch-IsKeeping bs =
      run_tasks-IsKeeping _ bs (fetch_and_write-IsKeeping [] max_attempts 0)

  pub null_batch-IsKeeping : (bs : List BlockNumber) → IsKeeping (process_null_blocks_batch env bs)
  unfolding process_null_blocks_batch retry_block_retrieval
  null_batch-IsKeeping bs =
      run_tasks-IsKeeping _ bs
        (fetch_and_write-IsKeeping (text " during gap filling") max_attempts 0)

  pub block_batch-IsKeeping : (bs : List BlockNumber) → IsKeeping (process_block_batch env bs)
  unfolding process_block_batch process_block
  block_batch-IsKeeping bs = run_tasks-IsKeeping _ bs (process_from-IsKeeping max_attempts 0)
