-- ===== src/Commands/Healthy.antt =====
-- src/commands/mod.rs and src/db/mod.rs beside a node and a database that answer: every task
-- succeeds and writes its block.
use fossil_headers_db.Prelude.{
  ℕ, suc, ◌+◌, ℤ, eqb_ℤ, ◌≡◌, refl, sym, subst, ◌∙◌, false, ◌||◌, List, [], ◌∷◌, arith,
}
use fossil_headers_db.Result.{Result, ok}
use fossil_headers_db.Text.{Text}
use fossil_headers_db.Errors.{BlockchainError}
use fossil_headers_db.Utils.{convert_hex_string_to_i64}
use fossil_headers_db.Types.{BlockNumber}
use fossil_headers_db.Rpc.{BlockHeaderWithEmptyTransaction}
use fossil_headers_db.Database.Rows.{HeaderRow, stored, memb}
use fossil_headers_db.Database.Action.{
  Env, World, Action, continue, pure, ◌>>=◌, begin, execute_counted, commit, ask_header,
}
use fossil_headers_db.Batch.Missing.{IsBlock, block_values}
use fossil_headers_db.Db.{
  upsert_columns, bound_row, get_db_pool, insert_block_header, write_blockheader,
}
use fossil_headers_db.Db.Pool.{Serves, get_db_pool-tables, get_db_pool-succeeds}
use fossil_headers_db.Commands.Tasks.{
  TaskError, Tally, add_result, wait_point, fetch_and_write, attempt_block_processing, process_from,
  process_block, run_tasks,
}

-- The numbers of a header can be read, and it is the header of the given block.
pub record IsHeaderOf (n : ℤ) (h : BlockHeaderWithEmptyTransaction) : Type 0 where
  pub gas_limit : ℤ
  pub gas_used : ℤ
  pub timestamp : ℤ
  pub reads_number : convert_hex_string_to_i64 h.number ≡ ok n
  pub reads_gas_limit : convert_hex_string_to_i64 h.gas_limit ≡ ok gas_limit
  pub reads_gas_used : convert_hex_string_to_i64 h.gas_used ≡ ok gas_used
  pub reads_timestamp : convert_hex_string_to_i64 h.timestamp ≡ ok timestamp

-- The node has every block, no statement is refused, no task is cut off, and nobody asks to stop.
pub record IsHealthy (env : Env) : Type 0 where
  pub answers :
      (t : ℕ) (b : BlockNumber)
      → IsBlock b.value
      → (h : BlockHeaderWithEmptyTransaction) × (env.header t b ≡ ok h) × IsHeaderOf b.value h
  pub serves : Serves env
  pub uncut : (t : ℕ) → env.cut t ≡ false
  pub continuing : (t : ℕ) → env.terminated t ≡ false

pub stored-upsert_columns :
    (n : ℤ) (r : HeaderRow) (rows : List HeaderRow)
    → stored n (upsert_columns r rows) ≡ (eqb_ℤ r.number n || stored n rows)
unfolding stored upsert_columns
stored-upsert_columns n r [] = refl
stored-upsert_columns n r (s ∷ rows) = ground (arith, stored-upsert_columns n r rows)

-- The action succeeds, and stores the given blocks beside what was.
pub record Puts {E A : Type 0} (ns : List ℤ) (a : A) (w : World) (m : Result E A × World)
    : Type 0 where
  pub succeeds : m.0 ≡ ok a
  pub blocks :
      (n : ℤ) → stored n m.1.tables.blockheaders ≡ (memb n ns || stored n w.tables.blockheaders)

-- The tasks of a batch have all succeeded, and the blocks are stored beside what was.
pub record Finishes (ns : List ℤ) (w : World) (m : Result BlockchainError Tally × World)
    : Type 0 where
  pub tally : Tally
  pub finished : m.0 ≡ ok tally
  pub complete : tally.failed_blocks ≡ []
  pub blocks :
      (n : ℤ) → stored n m.1.tables.blockheaders ≡ (memb n ns || stored n w.tables.blockheaders)

-- The blocks of a batch are all between 0 and 2^62.
abbrev pub AreBlocks : List BlockNumber → Type 0
AreBlocks [] = Unit {0}
AreBlocks (b ∷ bs) = IsBlock b.value × AreBlocks bs

-- The task of a block stores it, whatever the state is.
abbrev pub Works : (BlockNumber → Action TaskError (Unit {0})) → Type 0
Works task = (b : BlockNumber) (w : World) → IsBlock b.value → Puts (b.value ∷ []) tt w (task b w)

module _ (env : Env) (healthy : IsHealthy env) where
  write_blockheader-Puts :
      (n : ℤ) (h : BlockHeaderWithEmptyTransaction) (w : World)
      → IsHeaderOf n h
      → Puts (n ∷ []) tt w (write_blockheader env h w)
  unfolding write_blockheader begin insert_block_header execute_counted commit memb
  write_blockheader-Puts n h w readable =
      let v : World = (get_db_pool env w).1 in
      rw
        (
          get_db_pool-succeeds env healthy.serves w,
          healthy.serves.unfailing v.tick,
          readable.reads_number,
          readable.reads_gas_limit,
          readable.reads_gas_used,
          readable.reads_timestamp,
          healthy.serves.unfailing (v.tick + 1),
          healthy.serves.unfailing (v.tick + 1 + 1),
        )
        (record {
          succeeds = refl;
          blocks = λ m. rw (get_db_pool-tables env w) (
              stored-upsert_columns m
                (bound_row h n readable.gas_limit readable.gas_used readable.timestamp)
                w.tables.blockheaders
              ∙ unfold bound_row in ground arith);
        })

  pub fetch_and_write-Puts :
      (purpose : Text) (left i : ℕ) (b : BlockNumber) (w : World)
      → IsBlock b.value
      → Puts (b.value ∷ []) tt w (fetch_and_write env purpose (suc left) i b w)
  unfolding fetch_and_write wait_point ask_header
  fetch_and_write-Puts purpose left i b w inside =
      let (h, found, readable) = healthy.answers (w.tick + 1) b inside in
      let v : World = record w { tick = w.tick + 1 + 1 + 1 } in
      let put : Puts (b.value ∷ []) tt v (write_blockheader env h v) =
        write_blockheader-Puts b.value h v readable in
      rw (healthy.uncut w.tick, found, healthy.uncut (w.tick + 1 + 1), put.succeeds)
        (record { succeeds = refl; blocks = put.blocks })

  pub process_block-Puts :
      (b : BlockNumber) (w : World)
      → IsBlock b.value
      → Puts (b.value ∷ []) tt w (process_block env b w)
  unfolding process_block process_from attempt_block_processing wait_point ask_header
  process_block-Puts b w inside =
      let (h, found, readable) = healthy.answers (w.tick + 1) b inside in
      let v : World = record w { tick = w.tick + 1 + 1 + 1 } in
      let put : Puts (b.value ∷ []) tt v (write_blockheader env h v) =
        write_blockheader-Puts b.value h v readable in
      rw (healthy.uncut w.tick, found, healthy.uncut (w.tick + 1 + 1), put.succeeds)
        (record { succeeds = refl; blocks = put.blocks })

  abbrev ticked : World → World
  ticked w = record w { tick = w.tick + 1 }

  uncut_after :
      (m : Result TaskError (Unit {0}) × World)
      → m.0 ≡ ok tt
      → continue m.0 (λ _. wait_point env) m.1 ≡ (ok tt, ticked m.1)
  unfolding wait_point
  uncut_after m h = rw (h, healthy.uncut m.1.tick) refl

  tallied :
      (b : BlockNumber) (bs : List BlockNumber) (w v : World)
      (m : Result BlockchainError Tally × World)
      → ((n : ℤ)
          → stored n v.tables.blockheaders
            ≡ (memb n (b.value ∷ []) || stored n w.tables.blockheaders))
      → Finishes (block_values bs) v m
      → Finishes
          (block_values (b ∷ bs))
          w
          (continue m.0 (λ t. pure (record t { successful_count = t.successful_count + 1 })) m.1)
  unfolding block_values memb
  tallied b bs w v m first rest = rw rest.finished (record {
    tally = record rest.tally { successful_count = rest.tally.successful_count + 1 };
    finished = refl;
    complete = rest.complete;
    blocks = λ n. rw (rest.blocks n, first n) (ground arith);
  })

  pub run_tasks-Finishes :
      (task : BlockNumber → Action TaskError (Unit {0})) (bs : List BlockNumber) (w : World)
      → Works task
      → AreBlocks bs
      → Finishes (block_values bs) w (run_tasks env task bs w)
  unfolding run_tasks block_values memb
  run_tasks-Finishes task [] w works inside = record {
    tally = _;
    finished = refl;
    complete = refl;
    blocks = λ n. refl;
  }
  run_tasks-Finishes task (b ∷ bs) w works (here, inside) =
      let put : Puts (b.value ∷ []) tt w (task b w) = works b w here in
      let v : World = ticked (task b w).1 in
      let rest : Finishes (block_values bs) v (run_tasks env task bs v) =
        run_tasks-Finishes task bs v works inside in
      subst
        (λ m. Finishes (block_values (b ∷ bs)) w (
          continue (ok m.0)
            (λ result. run_tasks env task bs >>= λ tally. pure (add_result result b tally)) m.1))
        (sym (uncut_after (task b w) put.succeeds))
        (tallied b bs w v (run_tasks env task bs v) put.blocks rest)
