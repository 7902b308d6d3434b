-- ===== src/Commands/Keeping.antt =====
-- src/commands/mod.rs, src/db/mod.rs: what the tool keeps, whatever fails. No block is lost, and the
-- metadata of the services is left alone.
use fossil_headers_db.Prelude.{
  ℕ, zero, suc, ◌+◌, ◌*◌, ◌^◌, ◌%◌, ltb, ℤ, ◌≡◌, refl, ◌∙◌, inl, inr, Bool, true, false, not, ◌||◌,
  [], ◌∷◌, ◌++◌, arith, Option-cases, if◌then◌else◌,
}
use fossil_headers_db.Result.{Result, ok, err, Result-cases}
use fossil_headers_db.Text.{text}
use fossil_headers_db.Errors.{
  BlockchainError, database_connection, database_transaction, sqlx_message,
}
use fossil_headers_db.Types.{BlockNumber}
use fossil_headers_db.Utils.{convert_hex_string_to_i64}
use fossil_headers_db.Rpc.{BlockHeaderWithEmptyTransaction}
use fossil_headers_db.Database.Rows.{Tables, stored}
use fossil_headers_db.Database.Action.{
  Env, World, Action, continue, pure, query, begin, execute_counted, commit, sleep, sleep_millis,
  map_fault, ◌>>=◌,
}
use fossil_headers_db.Db.{
  bound_row, is_transient_error, get_db_pool, retry_loop, retry_async, read_last_stored,
  get_last_stored_blocknumber, find_first_gap, find_null_data, insert_block_header,
  write_blockheader,
}
use fossil_headers_db.Db.Pool.{get_db_pool-tables}
use fossil_headers_db.Commands.Healthy.{stored-upsert_columns}

-- No block is lost, and the metadata is as it was.
abbrev pub Keeps : Tables → Tables → Type 0
Keeps t t' =
    ((n : ℤ) → stored n t.blockheaders ≡ true → stored n t'.blockheaders ≡ true)
    × (t'.index_metadata ≡ t.index_metadata)

pub Keeps-same : (t t' : Tables) → t' ≡ t → Keeps t t'
Keeps-same t t' same = rw same (λ n h. h, refl)

pub Keeps-then : (t u v : Tables) → Keeps t u → Keeps u v → Keeps t v
Keeps-then t u v (f, p) (g, q) = (λ n h. g n (f n h), q ∙ p)

-- An action that keeps them from every state, whether it succeeds or fails.
abbrev pub IsKeeping : {E A : Type 0} → Action E A → Type 0
IsKeeping m = (w : World) → Keeps w.tables (m w).1.tables

-- A part that keeps them, and what follows on it.
pub continue-Keeps :
    {E A B : Type 0} (t : Tables) (m : Result E A × World) (f : A → Action E B)
    → Keeps t m.1.tables
    → ((a : A) → IsKeeping (f a))
    → Keeps t (continue m.0 f m.1).1.tables
continue-Keeps t (ok a, v) f g h = Keeps-then t v.tables (f a v).1.tables g (h a v)
continue-Keeps t (err e, v) f g h = g

pub bind-IsKeeping :
    {E A B : Type 0} (m : Action E A) (f : A → Action E B)
    → IsKeeping m
    → ((a : A) → IsKeeping (f a))
    → IsKeeping (m >>= f)
bind-IsKeeping m f g h w = continue-Keeps w.tables (m w) f (g w) h

pub if-IsKeeping :
    {E A : Type 0} (b : Bool) (m k : Action E A)
    → IsKeeping m
    → IsKeeping k
    → IsKeeping (if b then m else k)
if-IsKeeping true m k g h = g
if-IsKeeping false m k g h = h

pub if-Keeps :
    {E A : Type 0} (t : Tables) (b : Bool) (m k : Result E A × World)
    → Keeps t m.1.tables
    → Keeps t k.1.tables
    → Keeps t (if b then m else k).1.tables
if-Keeps t true m k g h = g
if-Keeps t false m k g h = h

pub Keeps-refl : (t : Tables) → Keeps t t
Keeps-refl t = (λ n h. h, refl)

pub Result-IsKeeping :
    {E F A B : Type 0} (r : Result F A) (f : A → Action E B) (g : F → Action E B)
    → ((a : A) → IsKeeping (f a))
    → ((e : F) → IsKeeping (g e))
    → IsKeeping (elim r as (λ x. Action E B) [ ok a ↦ f a | err e ↦ g e ])
Result-IsKeeping (ok a) f g h k = h a
Result-IsKeeping (err e) f g h k = k e

pub sleep-IsKeeping : (E : Type 0) (n : ℕ) → IsKeeping (sleep {E = E} n)
unfolding sleep sleep_millis
sleep-IsKeeping E n w = Keeps-refl w.tables

-- In the open transaction: the tables as they were, and in the transaction nothing lost.
abbrev IsOpen : Tables → World → Type 0
IsOpen t v = (v.tables ≡ t) × Keeps t v.pending

abbrev finish_write : Env → Bool → Action BlockchainError (Unit {0})
finish_write env inserted =
    if not inserted
    then pure tt
    else map_fault
        (λ e. database_transaction (text "Failed to commit transaction: " ++ sqlx_message e))
        (commit env)

retry_loop-IsKeeping :
    {A : Type 0} (operation : Action BlockchainError A) (max_retries fuel attempts : ℕ)
    (last : BlockchainError)
    → IsKeeping operation
    → IsKeeping (retry_loop operation max_retries fuel attempts last)
unfolding retry_loop sleep sleep_millis
retry_loop-IsKeeping operation max_retries zero attempts last keeps w = Keeps-refl w.tables
retry_loop-IsKeeping {A = A} operation max_retries (suc fuel) attempts last keeps w =
    elim (Result-cases (operation w).0) [
      | inl (a, p) ↦ rw (retry_loop, p) (keeps w)
      | inr (e, p) ↦
          let v : World = (operation w).1 in
          let u : World = record v { slept = 2 ^ (attempts + 1) % 2 ^ 64 * 1000 ∷ v.slept } in
          let again : Result BlockchainError A × World =
            retry_loop operation max_retries fuel (attempts + 1) e u in
          rw (retry_loop, p)
            (if-Keeps w.tables (ltb max_retries (attempts + 1) || not (is_transient_error e))
              (err e, v) again (keeps w)
              (Keeps-then w.tables v.tables again.1.tables (keeps w)
                (retry_loop-IsKeeping operation max_retries fuel (attempts + 1) e keeps u)))
    ]

module _ (env : Env) where
  pub get_db_pool-IsKeeping : IsKeeping (get_db_pool env)
  get_db_pool-IsKeeping w =
      Keeps-same w.tables (get_db_pool env w).1.tables (get_db_pool-tables env w)

  query-IsKeeping : {A : Type 0} (f : Tables → A) → IsKeeping (query env f)
  unfolding query
  query-IsKeeping f w = elim (Option-cases (env.fault w.tick)) [
    | inl fine ↦ rw fine (Keeps-refl w.tables)
    | inr (e, p) ↦ rw p (Keeps-refl w.tables)
  ]

  pub find_first_gap-IsKeeping : (s e : BlockNumber) → IsKeeping (find_first_gap env s e)
  unfolding find_first_gap
  find_first_gap-IsKeeping s e =
      bind-IsKeeping (get_db_pool env) _ get_db_pool-IsKeeping
        (λ _ w. continue-Keeps w.tables _ _ (query-IsKeeping _ w) (λ found v. Keeps-refl v.tables))

  pub find_null_data-IsKeeping : (s e : BlockNumber) → IsKeeping (find_null_data env s e)
  unfolding find_null_data
  find_null_data-IsKeeping s e =
      bind-IsKeeping (get_db_pool env) _ get_db_pool-IsKeeping
        (λ _ w. continue-Keeps w.tables _ _ (query-IsKeeping _ w) (λ ns v. Keeps-refl v.tables))

  read_last_stored-IsKeeping : IsKeeping (read_last_stored env)
  unfolding read_last_stored
  read_last_stored-IsKeeping =
      bind-IsKeeping (get_db_pool env) _ get_db_pool-IsKeeping
        (λ _ w. continue-Keeps w.tables _ _ (query-IsKeeping _ w) (λ ns v. Keeps-refl v.tables))

  pub get_last_stored-IsKeeping : IsKeeping (get_last_stored_blocknumber env)
  unfolding get_last_stored_blocknumber retry_async
  get_last_stored-IsKeeping =
      retry_loop-IsKeeping (read_last_stored env) 3 4 0 (database_connection [])
        read_last_stored-IsKeeping

  lifted-IsOpen :
      {A B : Type 0} (t : Tables) (r : Result BlockchainError A) (f : A → Action BlockchainError B)
      (v : World)
      → IsOpen t v
      → ((a : A) → IsOpen t (f a v).1)
      → IsOpen t (continue r f v).1
  lifted-IsOpen t (ok a) f v begun later = later a
  lifted-IsOpen t (err e) f v begun later = begun

  insert_block_header-IsOpen :
      (t : Tables) (h : BlockHeaderWithEmptyTransaction) (v : World)
      → IsOpen t v
      → IsOpen t (insert_block_header env h v).1
  unfolding insert_block_header execute_counted
  insert_block_header-IsOpen t h v (same, (kept, left)) =
      lifted-IsOpen t (convert_hex_string_to_i64 h.number) _ v (same, (kept, left))
        (λ number.
          lifted-IsOpen t (convert_hex_string_to_i64 h.gas_limit) _ v (same, (kept, left))
            (λ gas_limit.
              lifted-IsOpen t (convert_hex_string_to_i64 h.gas_used) _ v (same, (kept, left))
                (λ gas_used.
                  lifted-IsOpen t (convert_hex_string_to_i64 h.timestamp) _ v (same, (kept, left))
                    (λ timestamp. elim (Option-cases (env.fault v.tick)) [
                      | inr (e, p) ↦ rw p (same, (kept, left))
                      | inl fine ↦ rw fine (
                        same,
                        (
                          (λ n stored_first.
                              rw
                                (
                                  stored-upsert_columns n
                                      (bound_row h number gas_limit gas_used timestamp)
                                      v.pending.blockheaders,
                                  kept n stored_first,
                                )
                                (ground arith)),
                          left,
                        ),
                      )
                    ]))))

  commit-Keeps : (t : Tables) (v : World) → IsOpen t v → Keeps t (commit env v).1.tables
  unfolding commit
  commit-Keeps t v (same, kept) = elim (Option-cases (env.fault v.tick)) [
    | inr (e, p) ↦ rw p (Keeps-same t v.tables same)
    | inl fine ↦ rw fine kept
  ]

  -- What follows on the insert.
  inserted-Keeps :
      (t : Tables) (m : Result BlockchainError Bool × World)
      → IsOpen t m.1
      → Keeps t (continue m.0 (finish_write env) m.1).1.tables
  inserted-Keeps t (ok true, v) begun = commit-Keeps t v begun
  inserted-Keeps t (ok false, v) (same, kept) = Keeps-same t v.tables same
  inserted-Keeps t (err e, v) (same, kept) = Keeps-same t v.tables same

  pub write_blockheader-IsKeeping :
      (h : BlockHeaderWithEmptyTransaction) → IsKeeping (write_blockheader env h)
  unfolding write_blockheader begin
  write_blockheader-IsKeeping h = bind-IsKeeping (get_db_pool env) _ get_db_pool-IsKeeping (λ _ w.
      elim (Option-cases (env.fault w.tick)) [
        | inr (e, p) ↦ rw p (Keeps-refl w.tables)
        | inl fine ↦
            let v : World = record w { tick = w.tick + 1; pending = w.tables } in
            rw fine (
              inserted-Keeps w.tables (insert_block_header env h v)
                (insert_block_header-IsOpen w.tables h v (refl, Keeps-refl w.tables)))
      ])
