-- ===== src/Database/Action.antt =====
-- A run of asynchronous code: it reads and writes the shared state, asks the outside, and fails.
use fossil_headers_db.Prelude.{ℕ, ◌+◌, ◌*◌, ℤ, Bool, List, ◌∷◌, Option, none, some}
use fossil_headers_db.Result.{Result, ok, err, map_err}
use fossil_headers_db.Errors.{BlockchainError, SqlxError}
use fossil_headers_db.Text.{Text}
use fossil_headers_db.Types.{BlockNumber}
use fossil_headers_db.Rpc.{BlockHeader, BlockHeaderWithEmptyTransaction}
use fossil_headers_db.Database.Rows.{Tables}

-- How a spawned task that fetches a block ends: it returns, or it panics or is cancelled.
pub data Joined : Type 0 where
  joined : Result BlockchainError BlockHeader → Joined
  panicked : Joined

-- A connection string: not there, not readable (with the driver's message), or well-formed.
pub data Connection : Type 0 where
  unset : Connection
  malformed : Text → Connection
  well_formed : Connection

-- What the outside answers when it is asked for the t-th time. A fault of the database is any
-- refusal of a statement: a lost connection as well as a constraint of the schema. `elapsed` says
-- whether the timer around a task runs out before the task ends, and `next_id` is the identity
-- column's next value. `header` is what the functions of src/rpc/mod.rs return for a block, `cut`
-- whether the task that asks is cut off there by its timer or a panic, `connection` what the
-- variable DB_CONNECTION_STRING holds, and `position` which row of a query the server returns where
-- it has `LIMIT 1` and no `ORDER BY`.
pub record Env : Type 0 where
  pub finalized : ℕ → Result BlockchainError BlockNumber
  pub fetch : ℕ → BlockNumber → Joined
  pub elapsed : ℕ → BlockNumber → Bool
  pub fault : ℕ → Option SqlxError
  pub terminated : ℕ → Bool
  pub now : ℕ → ℕ
  pub next_id : ℕ → ℤ
  pub header : ℕ → BlockNumber → Result BlockchainError BlockHeaderWithEmptyTransaction
  pub cut : ℕ → Bool
  pub connection : Connection
  pub position : ℕ → ℕ

-- The committed tables, those of the open transaction, the questions asked so far, and the
-- milliseconds slept, the latest first, and whether the shared pool of src/db/mod.rs is there.
pub record World : Type 0 where
  pub tables : Tables
  pub pending : Tables
  pub tick : ℕ
  pub slept : List ℕ
  pub connected : Bool

abbrev pub Action : Type 0 → Type 0 → Type 0
Action E A = World → Result E A × World

abbrev pub continue : {E A B : Type 0} → Result E A → (A → Action E B) → Action E B
continue (ok a) f w = f a w
continue (err e) f w = (err e, w)

infixl 5 ◌>>=◌ ◌>>◌
abbrev pub ◌>>=◌ : {E A B : Type 0} → Action E A → (A → Action E B) → Action E B
◌>>=◌ m f w = continue (m w).0 f (m w).1

abbrev pub ◌>>◌ : {E A B : Type 0} → Action E A → Action E B → Action E B
m >> k = m >>= λ _. k

module _ {E A : Type 0} where
  abbrev pub pure : A → Action E A
  pure a w = (ok a, w)

  abbrev pub raise : E → Action E A
  raise e w = (err e, w)

  abbrev pub lift : Result E A → Action E A
  lift r w = (r, w)

  -- `match action.await { … }`: the outcome as a value, where nothing is raised.
  abbrev pub attempt : {F : Type 0} → Action E A → Action F (Result E A)
  attempt m w = (ok (m w).0, (m w).1)

abbrev pub map_fault : {E F A : Type 0} → (E → F) → Action E A → Action F A
map_fault f m w = (map_err f (m w).0, (m w).1)

-- `tokio::time::sleep`, for `Duration::from_millis` and `Duration::from_secs`.
unfoldable pub sleep_millis : {E : Type 0} → ℕ → Action E (Unit {0})
sleep_millis n w = (ok tt, record w { slept = n ∷ w.slept })

unfoldable pub sleep : {E : Type 0} → ℕ → Action E (Unit {0})
unfolding sleep_millis
sleep seconds = sleep_millis (seconds * 1000)

module _ (env : Env) where
  -- `should_terminate.load`.
  unfoldable pub load_terminate : {E : Type 0} → Action E Bool
  load_terminate w = (ok (env.terminated w.tick), record w { tick = w.tick + 1 })

  abbrev fault_or :
      {A : Type 0}
      → Option SqlxError
      → Result SqlxError A × World
      → World
      → Result SqlxError A × World
  fault_or none done w = done
  fault_or (some e) done w = (err e, w)

  -- A query on the pool, which sees the committed tables.
  unfoldable pub query : {A : Type 0} → (Tables → A) → Action SqlxError A
  query f w =
      let w' = record w { tick = w.tick + 1 } in
      fault_or (env.fault w.tick) (ok (f w.tables), w') w'

  -- A statement on the pool, committed at once. It is told the time and the next identity, and
  -- says how many rows it has affected.
  unfoldable pub execute_pool : (ℕ → ℤ → Tables → ℕ × Tables) → Action SqlxError ℕ
  execute_pool f w =
      let w' = record w { tick = w.tick + 1 } in
      let (affected, tables') = f (env.now w.tick) (env.next_id w.tick) w.tables in
      fault_or (env.fault w.tick) (ok affected, record w' { tables = tables' }) w'

  -- `pool.begin()`.
  unfoldable pub begin : Action SqlxError (Unit {0})
  begin w =
      let w' = record w { tick = w.tick + 1 } in
      fault_or (env.fault w.tick) (ok tt, record w' { pending = w.tables }) w'

  -- A statement of the open transaction.
  unfoldable pub execute : (ℕ → Tables → Tables) → Action SqlxError (Unit {0})
  execute f w =
      let w' = record w { tick = w.tick + 1 } in
      fault_or (env.fault w.tick) (ok tt, record w' { pending = f (env.now w.tick) w.pending }) w'

  -- The same for a statement that tells how many rows it has affected.
  unfoldable pub execute_counted : (ℕ → Tables → ℕ × Tables) → Action SqlxError ℕ
  execute_counted f w =
      let w' = record w { tick = w.tick + 1 } in
      let (affected, tables') = f (env.now w.tick) w.pending in
      fault_or (env.fault w.tick) (ok affected, record w' { pending = tables' }) w'

  -- `tx.commit()`. A transaction that is dropped without it leaves the tables as they were.
  unfoldable pub commit : Action SqlxError (Unit {0})
  commit w =
      let w' = record w { tick = w.tick + 1 } in
      fault_or (env.fault w.tick) (ok tt, record w' { tables = w.pending }) w'

  -- `get_latest_finalized_blocknumber` of the provider.
  unfoldable pub ask_finalized : Action BlockchainError BlockNumber
  ask_finalized w = (env.finalized w.tick, record w { tick = w.tick + 1 })

  -- `rpc::get_full_block_by_number`.
  unfoldable pub ask_header : BlockNumber → Action BlockchainError BlockHeaderWithEmptyTransaction
  ask_header b w = (env.header w.tick b, record w { tick = w.tick + 1 })

  -- Tasks that fetch some blocks at once and are awaited together.
  unfoldable pub ask_blocks : {E A : Type 0} → ((BlockNumber → Joined) → A) → Action E A
  ask_blocks f w = (ok (f (env.fetch w.tick)), record w { tick = w.tick + 1 })

  -- The same for tasks with a timer each.
  unfoldable pub ask_tasks :
      {E A : Type 0} → ((BlockNumber → Bool) → (BlockNumber → Joined) → A) → Action E A
  ask_tasks f w = (ok (f (env.elapsed w.tick) (env.fetch w.tick)), record w { tick = w.tick + 1 })
