-- ===== src/Commands.antt =====
-- src/commands/mod.rs: `fill_gaps` and `update_from`. The logger is left out. Rounds that the source
-- bounds by a range run on fuel that the range gives; the loops that wait for the node are on fuel
-- with `none` while they run.
pub mod Tasks
pub mod Healthy
pub mod Collecting
pub mod Filling
pub mod NullRows
pub mod Keeping
pub mod TasksKeeping
pub mod RunsKeeping
pub mod Updating
use fossil_headers_db.Prelude.{
  ℕ, zero, suc, ◌+◌, ◌*◌, ℤ, pos, ltb_ℤ, leb_ℤ, min_ℤ, eqb_ℤ, ◌-ℤ◌, Bool, true, false, not, ◌||◌,
  List, [], ◌∷◌, map, Option, none, some, length, is_empty, unwrap_or, ltb, leb, ◌==◌,
  if◌then◌else◌,
}
use fossil_headers_db.Prelude.Machine.{add_i64, sub_i64}
use fossil_headers_db.Result.{Result, ok, err}
use fossil_headers_db.Errors.{BlockchainError}
use fossil_headers_db.Types
use fossil_headers_db.Types.{BlockNumber, from_trusted}
use fossil_headers_db.Database.Action.{
  Action, Env, World, ◌>>=◌, ◌>>◌, pure, raise, map_fault, load_terminate, sleep, ask_finalized,
}
use fossil_headers_db.Blocks.{numbered, span}
use fossil_headers_db.Db.{find_first_gap, find_null_data, get_last_stored_blocknumber}
use Tasks.{Tally, process_missing_blocks_batch, process_null_blocks_batch, process_block_batch}

-- The last element of a list, or another one where it is empty.
unfoldable pub last_or : BlockNumber → List BlockNumber → BlockNumber
last_or b [] = b
last_or b (c ∷ cs) = last_or c cs

unfoldable pub calculate_range_end : BlockNumber → BlockNumber → BlockNumber
calculate_range_end search_end range_start_pointer =
    from_trusted
      (min_ℤ search_end.value (sub_i64 (add_i64 range_start_pointer.value (pos 100000)) (pos 1)))

-- A failure of a command: an error, or a panic of the program.
pub data Failure : Type 0 where
  failed : BlockchainError → Failure
  crashed : Failure

-- `(start..=last).step_by(size)`, for a size that is not 0; each step goes at least one further.
unfoldable pub steps : ℕ → ℤ → ℕ → ℤ → List ℤ
steps zero n size last = []
steps (suc fuel) n size last =
    let rest = steps fuel (add_i64 n (pos size)) size last in if leb_ℤ n last then n ∷ rest else []

-- `failed / total > 0.3` and `> 0.7`, which the quotient of two numbers below 2^50 and the two
-- literals decide as fractions do.
abbrev pub is_high : ℕ → ℕ → Bool
is_high failed_count total = ltb (3 * total) (10 * failed_count)

abbrev pub is_too_high : ℕ → ℕ → Bool
is_too_high failed_count total = ltb (7 * total) (10 * failed_count)

unfoldable pub apply_backpressure_if_needed : ℕ → ℕ → Action BlockchainError Bool
apply_backpressure_if_needed failed_count successful_count =
    let total = failed_count + successful_count in
    if total == 0
    then pure true
    else if is_high failed_count total
    then (do sleep 5; pure (not (is_too_high failed_count total)))
    else pure true

abbrev pub handle_batch_completion : List BlockNumber → Bool
handle_batch_completion failed_blocks = is_empty failed_blocks

module _ (env : Env) where
  -- The inner loop of `fill_missing_blocks_in_range`; `left` more blocks fit into the batch.
  unfoldable pub collect_gaps :
      ℕ → BlockNumber → BlockNumber → Action BlockchainError (List BlockNumber)
  collect_gaps zero current_start range_end_pointer = pure []
  collect_gaps (suc left) current_start range_end_pointer =
      if Types.le current_start range_end_pointer
      then (do
        gap ← find_first_gap env current_start range_end_pointer
        elim gap [
          | none ↦ pure []
          | some block_number ↦ do
            rest ←
                collect_gaps left (from_trusted (add_i64 block_number.value (pos 1)))
                  range_end_pointer
            pure (block_number ∷ rest)
        ])
      else pure []

  -- What a round does with the blocks that it has found; it returns where the next one starts.
  unfoldable pub fill_found : BlockNumber → List BlockNumber → Action BlockchainError BlockNumber
  fill_found range_end_pointer [] = pure (from_trusted (add_i64 range_end_pointer.value (pos 1)))
  fill_found range_end_pointer (b ∷ bs) = do
    process_missing_blocks_batch env (b ∷ bs)
    pure (from_trusted (add_i64 (last_or b bs).value (pos 1)))

  -- The rounds. Each starts further than the one before.
  unfoldable pub fill_rounds : ℕ → BlockNumber → BlockNumber → Action BlockchainError (Unit {0})
  fill_rounds zero range_start_pointer search_end = pure tt
  fill_rounds (suc fuel) range_start_pointer search_end = do
    stop ← load_terminate env
    if stop || ltb_ℤ search_end.value range_start_pointer.value then pure tt else do
      let range_end_pointer = calculate_range_end search_end range_start_pointer
      missing_blocks ← collect_gaps 100 range_start_pointer range_end_pointer
      next ← fill_found range_end_pointer missing_blocks
      fill_rounds fuel next search_end

  unfoldable pub fill_missing_blocks_in_range :
      BlockNumber → BlockNumber → Action BlockchainError (Unit {0})
  fill_missing_blocks_in_range start search_end =
      fill_rounds (suc (suc (span (search_end.value -ℤ start.value)))) start search_end

  -- The same for the rows with null data.
  unfoldable pub fill_null_found :
      BlockNumber → List BlockNumber → Action BlockchainError BlockNumber
  fill_null_found range_end_pointer [] =
      pure (from_trusted (add_i64 range_end_pointer.value (pos 1)))
  fill_null_found range_end_pointer (b ∷ bs) = do
    process_null_blocks_batch env (b ∷ bs)
    pure (Types.add (last_or b bs) (pos 1))

  unfoldable pub null_rounds : ℕ → BlockNumber → BlockNumber → Action BlockchainError (Unit {0})
  null_rounds zero range_start_pointer search_end = pure tt
  null_rounds (suc fuel) range_start_pointer search_end = do
    stop ← load_terminate env
    if stop || ltb_ℤ search_end.value range_start_pointer.value then pure tt else do
      let range_end_pointer = calculate_range_end search_end range_start_pointer
      null_data ← find_null_data env range_start_pointer range_end_pointer
      next ← fill_null_found range_end_pointer null_data
      null_rounds fuel next search_end

  unfoldable pub fill_null_rows : BlockNumber → BlockNumber → Action BlockchainError (Unit {0})
  fill_null_rows start search_end =
      null_rounds (suc (suc (span (search_end.value -ℤ start.value)))) start search_end

  unfoldable pub get_range_end : Option BlockNumber → Action BlockchainError BlockNumber
  get_range_end (some s) = pure s
  get_range_end none = get_last_stored_blocknumber env

  unfoldable pub fill_gaps :
      Option BlockNumber → Option BlockNumber → Action BlockchainError (Unit {0})
  fill_gaps start end_block = do
    let range_start_pointer = unwrap_or start (from_trusted (pos 0))
    range_end ← get_range_end end_block
    if ltb_ℤ range_end.value (pos 0) || Types.eq range_start_pointer range_end then pure tt else do
      fill_missing_blocks_in_range range_start_pointer range_end
      fill_null_rows range_start_pointer range_end

  unfoldable pub get_first_missing_block : Option BlockNumber → Action BlockchainError BlockNumber
  get_first_missing_block (some s) = pure s
  get_first_missing_block none = do
    last ← get_last_stored_blocknumber env
    pure (from_trusted (add_i64 last.value (pos 1)))

  abbrev pub at_most : Option BlockNumber → BlockNumber → BlockNumber
  at_most none latest_block = latest_block
  at_most (some s) latest_block = if Types.le s latest_block then s else latest_block

  unfoldable pub get_last_block : Option BlockNumber → Action BlockchainError BlockNumber
  get_last_block end_block = do
    latest_block ← ask_finalized env
    pure (at_most end_block latest_block)

  unfoldable pub process_block_range : ℤ → ℤ → Action BlockchainError Tally
  process_block_range start_block end_block =
      process_block_batch env
        (map from_trusted (numbered start_block 0 (span (end_block -ℤ start_block))))

  -- The loop of `update_blocks` over the starts of the batches.
  unfoldable pub update_batches : List ℤ → BlockNumber → ℕ → Action BlockchainError (Unit {0})
  update_batches [] last_block size = pure tt
  update_batches (n ∷ ns) last_block size =
      let rest = update_batches ns last_block size in
      do
        stop ← load_terminate env
        if stop then pure tt else do
          let range_end = min_ℤ (add_i64 last_block.value (pos 1)) (add_i64 n (pos size))
          tally ← process_block_range n range_end
          continues ←
              apply_backpressure_if_needed (length tally.failed_blocks) tally.successful_count
          if not continues
              then pure tt
              else if handle_batch_completion tally.failed_blocks
              then rest
              else pure tt

  -- `step_by(0)` panics.
  unfoldable pub update_blocks : BlockNumber → BlockNumber → ℕ → Action Failure (Unit {0})
  update_blocks range_start last_block size =
      if not (Types.le range_start last_block)
      then pure tt
      else if size == 0
      then raise crashed
      else map_fault failed (
          update_batches
            (steps (suc (span (last_block.value -ℤ range_start.value))) range_start.value size
              last_block.value)
            last_block size)

  -- The two loops of `chain_update_blocks`, on fuel for their rounds together: where `waiting` is
  -- true, the inner loop is at its start. `none` while they run.
  unfoldable pub chain_from :
      ℕ → Bool → BlockNumber → BlockNumber → ℕ → World → Option (Result Failure (Unit {0}) × World)
  chain_from zero waiting range_start last_block size w = none
  chain_from (suc fuel) false range_start last_block size w =
      elim (load_terminate env {E = Failure} w).0 [
        | ok true ↦ some (ok tt, (load_terminate env {E = Failure} w).1)
        | ok false ↦
            elim (update_blocks range_start last_block size
              (load_terminate env {E = Failure} w).1).0 [
                | ok done ↦
                    chain_from fuel true range_start last_block size
                      (update_blocks range_start last_block size
                        (load_terminate env {E = Failure} w).1).1
                | err e ↦ some (
                  err e,
                  (update_blocks range_start last_block size
                      (load_terminate env {E = Failure} w).1).1,
                )
              ]
        | err e ↦ some (err e, (load_terminate env {E = Failure} w).1)
      ]
  chain_from (suc fuel) true range_start last_block size w =
      elim (load_terminate env {E = Failure} w).0 [
        | ok true ↦
            chain_from fuel false range_start last_block size (load_terminate env {E = Failure} w).1
        | ok false ↦ elim (ask_finalized env (load_terminate env {E = Failure} w).1).0 [
          | err e ↦
              some (err (failed e), (ask_finalized env (load_terminate env {E = Failure} w).1).1)
          | ok new_latest_block ↦ elim (Types.lt last_block new_latest_block) [
            | true ↦
                chain_from fuel false (Types.add last_block (pos 1)) new_latest_block size
                  (ask_finalized env (load_terminate env {E = Failure} w).1).1
            | false ↦
                chain_from fuel true range_start last_block size
                  (sleep {E = Failure} 60
                    (ask_finalized env (load_terminate env {E = Failure} w).1).1).1
          ]
        ]
        | err e ↦ some (err e, (load_terminate env {E = Failure} w).1)
      ]

  abbrev pub chain_update_blocks :
      ℕ → BlockNumber → BlockNumber → ℕ → World → Option (Result Failure (Unit {0}) × World)
  chain_update_blocks fuel = chain_from fuel false

  -- The two reads at the start of `update_from`.
  unfoldable pub update_bounds :
      Option BlockNumber → Option BlockNumber → Action BlockchainError (BlockNumber × BlockNumber)
  update_bounds start end_block = do
    range_start ← get_first_missing_block start
    last_block ← get_last_block end_block
    pure (range_start, last_block)

  -- The last `match` of `update_from`.
  unfoldable pub update_range :
      Option BlockNumber
      → ℕ
      → BlockNumber
      → BlockNumber
      → ℕ
      → World
      → Option (Result Failure (Unit {0}) × World)
  update_range (some b) fuel range_start last_block size w =
      some (update_blocks range_start last_block size w)
  update_range none fuel range_start last_block size w =
      chain_update_blocks fuel range_start last_block size w

  unfoldable pub update_from :
      ℕ
      → Option BlockNumber
      → Option BlockNumber
      → ℕ
      → World
      → Option (Result Failure (Unit {0}) × World)
  update_from fuel start end_block size w = elim (update_bounds start end_block w).0 [
    | err e ↦ some (err (failed e), (update_bounds start end_block w).1)
    | ok (range_start, last_block) ↦
        update_range end_block fuel range_start last_block size (update_bounds start end_block w).1
  ]
