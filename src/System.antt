-- ===== src/System.antt =====
-- src/indexer/lib.rs, `start_indexing_services`, and src/commands/mod.rs: the two services beside each
-- other and beside the command line tool, as a sequence of whole cycles and whole runs of the tool in
-- any order. Single statements are not interleaved.
use fossil_headers_db.Prelude.{ℕ, ℤ, Option, some, ◌≡◌, subst}
use fossil_headers_db.Result.{Result}
use fossil_headers_db.Types.{BlockNumber}
use fossil_headers_db.Database.Rows.{Tables}
use fossil_headers_db.Config.Quick.{QuickIndexConfig}
use fossil_headers_db.Config.Batch.{BatchIndexConfig}
use fossil_headers_db.Database.Action.{Env, World}
use fossil_headers_db.Quick
use fossil_headers_db.Quick.Invariant.{NoGaps, ReportsValid}
use fossil_headers_db.Quick.NoGaps.{process_indexing_cycle-NoGaps}
use fossil_headers_db.Batch
use fossil_headers_db.Commands.{Failure, fill_gaps, update_from}
use fossil_headers_db.Commands.Keeping.{Keeps}
use fossil_headers_db.Commands.RunsKeeping.{EndsKept, fill_gaps-IsKeeping, update_from-EndsKept}
use fossil_headers_db.Batch.Keeping.{process_missing_blocks_cycle-NoGaps}

Keeps-NoGaps : (start : ℤ) (t t' : Tables) → Keeps t t' → NoGaps start t → NoGaps start t'
Keeps-NoGaps start t t' (kept, same) gaps = record {
  near = λ m h. gaps.near m (rw same at h);
  covered = λ m h n low high. kept n (gaps.covered m (rw same at h) n low high);
}

module _ (env : Env) (quick : QuickIndexConfig) (batch : BatchIndexConfig) where
  -- The cycles that lead from one state to another, each with any outcome.
  pub data Run : World → World → Type 0 where
    stopped : {w : World} → Run w w
    quick_cycle : {w w' : World} → Run (Quick.process_indexing_cycle env quick w).1 w' → Run w w'
    batch_cycle :
        {w w' : World} → Run (Batch.process_missing_blocks_cycle env batch w).1 w' → Run w w'
    tool_filled :
        {w w' : World} (start end_block : Option BlockNumber)
        → Run (fill_gaps env start end_block w).1 w'
        → Run w w'
    tool_updated :
        {w w' : World} (fuel : ℕ) (start end_block : Option BlockNumber) (size : ℕ)
        (r : Result Failure (Unit {0}) × World)
        → update_from env fuel start end_block size w ≡ some r
        → Run r.1 w'
        → Run w w'

  -- If the node reports valid finalized blocks only and no block is missing at first from `start`
  -- to the recorded latest block, then none is missing after any sequence of cycles of the two
  -- services and runs of the tool that have ended, whether they succeed or fail.
  pub Run-NoGaps :
      (start : ℤ) (w w' : World)
      → ReportsValid env
      → NoGaps start w.tables
      → Run w w'
      → NoGaps start w'.tables
  Run-NoGaps start w w' valid gaps stopped = gaps
  Run-NoGaps start w w' valid gaps (quick_cycle run) =
      Run-NoGaps start (Quick.process_indexing_cycle env quick w).1 w' valid
        (process_indexing_cycle-NoGaps env quick start valid w gaps) run
  Run-NoGaps start w w' valid gaps (batch_cycle run) =
      Run-NoGaps start (Batch.process_missing_blocks_cycle env batch w).1 w' valid
        (process_missing_blocks_cycle-NoGaps env batch start w gaps) run
  Run-NoGaps start w w' valid gaps (tool_filled s e run) =
      Run-NoGaps start (fill_gaps env s e w).1 w' valid
        (Keeps-NoGaps start w.tables (fill_gaps env s e w).1.tables (fill_gaps-IsKeeping env s e w)
          gaps)
        run
  Run-NoGaps start w w' valid gaps (tool_updated fuel s e size r ended run) =
      Run-NoGaps start r.1 w' valid
        (Keeps-NoGaps start w.tables r.1.tables
          (subst (EndsKept env w.tables) ended (update_from-EndsKept env fuel s e size w)) gaps)
        run
