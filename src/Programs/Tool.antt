-- ===== src/Programs/Tool.antt =====
-- src/main.rs: the command line tool. The health endpoint runs beside the tool until the process is
-- told to stop; the process ends when both have ended. The endpoint's loop is run behind the updater,
-- since it only waits for the signal.
use fossil_headers_db.Prelude.{ℕ, ℤ, ◌+◌, ◌≡◌, refl, ◌≤◌, Option, none, some, min, ◌++◌, true}
use fossil_headers_db.Result.{Result, ok, err, map_err}
use fossil_headers_db.Text.{Text, text}
use fossil_headers_db.Errors.{BlockchainError, internal, Report, message}
use fossil_headers_db.Types.{BlockNumber, from_trusted}
use fossil_headers_db.Database.Action.{Env, World}
use fossil_headers_db.Commands.{Failure, failed, crashed, fill_gaps, update_from}
use fossil_headers_db.Router.{Listening, listen, initialize_router, shutdown_signal_ends}

pub data Mode : Type 0 where
  fix update : Mode

-- The parsed arguments.
pub record Cli : Type 0 where
  pub mode : Mode
  pub start : Option ℤ
  pub end_block : Option ℤ
  pub loopsize : ℕ  -- u32

abbrev pub db_max_connections : ℕ
db_max_connections = 50

-- How the process ends: with the result of `main`, or by a panic of the updater.
pub data Exit : Type 0 where
  main_returned : Result BlockchainError (Unit {0}) → Exit
  main_panicked : Exit

abbrev pub trusted : Option ℤ → Option BlockNumber
trusted none = none
trusted (some n) = some (from_trusted n)

unfoldable pub handler_error : Text → BlockchainError
handler_error e = internal (text "Failed to set Ctrl+C handler: " ++ e)

abbrev pub or_failed : Result BlockchainError (Unit {0}) → Result Failure (Unit {0})
or_failed (ok done) = ok done
or_failed (err e) = err (failed e)

-- What `main` returns behind the end of the router.
abbrev pub logged : Option (Result Report (Unit {0}) × World) → Option (Exit × World)
logged none = none
logged (some (r, w)) = some (main_returned (ok tt), w)

module _ (env : Env) (listening : Listening) where
  unfoldable pub updater : ℕ → Cli → World → Option (Result Failure (Unit {0}) × World)
  updater fuel cli w = elim cli.mode [
    | fix ↦ some (
      or_failed (fill_gaps env (trusted cli.start) (trusted cli.end_block) w).0,
      (fill_gaps env (trusted cli.start) (trusted cli.end_block) w).1,
    )
    | update ↦
        update_from env fuel (trusted cli.start) (trusted cli.end_block)
          (min cli.loopsize db_max_connections) w
  ]

  -- The end of `join`: the router's result and the updater's error are only logged.
  abbrev pub joined_router : ℕ → Option (Result Failure (Unit {0}) × World) → Option (Exit × World)
  joined_router fuel none = none
  joined_router fuel (some (ok done, w)) = logged (initialize_router env listening fuel w)
  joined_router fuel (some (err (failed e), w)) = logged (initialize_router env listening fuel w)
  joined_router fuel (some (err crashed, w)) = some (main_panicked, w)

  -- `setup_ctrlc_handler`, whose refusal is a message, and the two tasks.
  unfoldable pub main : Option Text → ℕ → Cli → World → Option (Exit × World)
  main (some refused) fuel cli w = some (main_returned (err (handler_error refused)), w)
  main none fuel cli w = joined_router fuel (updater fuel cli w)

  -- An error of the updater does not reach the end of the process: where the router listens and the
  -- process is told to stop, it ends without an error, with the tables that the updater has left.
  pub main_swallows :
      (limit fuel : ℕ) (cli : Cli) (w v : World) (e : BlockchainError) (address : Text)
      → updater fuel cli w ≡ some (err (failed e), v)
      → listen listening ≡ ok address
      → ((t : ℕ) → limit ≤ t → env.terminated t ≡ true)
      → limit + 1 ≤ fuel + v.tick
      → 1 ≤ fuel
      → (r : Result Report (Unit {0}) × World) × (initialize_router env listening fuel v ≡ some r)
        × (main none fuel cli w ≡ some (main_returned (ok tt), r.1))
        × (r.1.tables ≡ v.tables)
  unfolding main initialize_router
  main_swallows limit fuel cli w v e address ended listens told enough h =
      let (u, p, same) = shutdown_signal_ends env limit fuel v told enough h in
      (
        (map_err message listening.served, u),
        rw (listens, p) refl,
        rw (ended, listens, p) refl,
        same,
      )
