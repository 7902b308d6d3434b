-- ===== src/Commands/RunsKeeping.antt =====
-- src/commands/mod.rs: what `fill_gaps` and `update_from` keep, whatever fails.
use fossil_headers_db.Prelude.{
  ℕ, zero, suc, ◌+◌, ◌*◌, ◌==◌, ℤ, pos, min_ℤ, ltb_ℤ, ◌-ℤ◌, inl, inr, Bool, true, false, not, ◌||◌,
  List, [], ◌∷◌, Option, none, some, length, unwrap_or, Bool-cases, if◌then◌else◌,
}
use fossil_headers_db.Prelude.Machine.{add_i64}
use fossil_headers_db.Result.{Result, ok, err, Result-cases}
use fossil_headers_db.Errors.{BlockchainError}
use fossil_headers_db.Types
use fossil_headers_db.Types.{BlockNumber, from_trusted}
use fossil_headers_db.Database.Rows.{Tables}
use fossil_headers_db.Database.Action.{
  Env, World, Action, pure, raise, sleep, sleep_millis, load_terminate, ask_finalized, map_fault,
  ◌>>=◌, ◌>>◌,
}
use fossil_headers_db.Blocks.{span}
use fossil_headers_db.Db.{find_first_gap, find_null_data, get_last_stored_blocknumber}
use fossil_headers_db.Commands.{
  calculate_range_end, Failure, failed, crashed, steps, is_high, is_too_high,
  apply_backpressure_if_needed, handle_batch_completion, collect_gaps, fill_found, fill_rounds,
  fill_missing_blocks_in_range, fill_null_found, null_rounds, fill_null_rows, get_range_end,
  fill_gaps, get_first_missing_block, at_most, get_last_block, process_block_range, update_batches,
  update_blocks, chain_from, update_bounds, update_range, update_from,
}
use fossil_headers_db.Commands.Tasks.{
  Tally, process_missing_blocks_batch, process_null_blocks_batch,
}
use fossil_headers_db.Commands.Keeping.{
  Keeps, Keeps-refl, Keeps-then, IsKeeping, bind-IsKeeping, if-IsKeeping, sleep-IsKeeping,
  find_first_gap-IsKeeping, find_null_data-IsKeeping, get_last_stored-IsKeeping,
}
use fossil_headers_db.Commands.TasksKeeping.{
  missing_batch-IsKeeping, null_batch-IsKeeping, block_batch-IsKeeping,
}

backpressure-IsKeeping : (f s : ℕ) → IsKeeping (apply_backpressure_if_needed f s)
unfolding apply_backpressure_if_needed
backpressure-IsKeeping f s =
    let slow : Action BlockchainError Bool = sleep 5 >> pure (not (is_too_high f (f + s))) in
    if-IsKeeping (f + s == 0) (pure true) (if is_high f (f + s) then slow else pure true)
      (λ w. Keeps-refl w.tables)
      (if-IsKeeping (is_high f (f + s)) slow (pure true)
        (bind-IsKeeping (sleep 5) (λ _. pure (not (is_too_high f (f + s))))
          (sleep-IsKeeping BlockchainError 5) (λ _ w. Keeps-refl w.tables))
        (λ w. Keeps-refl w.tables))

module _ (env : Env) where
  load_terminate-IsKeeping : (E : Type 0) → IsKeeping (load_terminate env {E = E})
  unfolding load_terminate
  load_terminate-IsKeeping E w = Keeps-refl w.tables

  ask_finalized-IsKeeping : IsKeeping (ask_finalized env)
  unfolding ask_finalized
  ask_finalized-IsKeeping w = Keeps-refl w.tables

  abbrev gap_next : ℕ → BlockNumber → Option BlockNumber → Action BlockchainError (List BlockNumber)
  gap_next left r none = pure []
  gap_next left r (some b) =
      collect_gaps env left (from_trusted (add_i64 b.value (pos 1))) r >>= λ rest. pure (b ∷ rest)

  collect_gaps-IsKeeping : (left : ℕ) (s r : BlockNumber) → IsKeeping (collect_gaps env left s r)
  unfolding collect_gaps
  collect_gaps-IsKeeping zero s r = λ w. Keeps-refl w.tables
  collect_gaps-IsKeeping (suc left) s r =
      if-IsKeeping (Types.le s r) (find_first_gap env s r >>= gap_next left r) (pure [])
        (bind-IsKeeping (find_first_gap env s r) (gap_next left r)
          (find_first_gap-IsKeeping env s r)
          (λ gap. elim gap as (λ o. IsKeeping (gap_next left r o)) [
            | none ↦ λ w. Keeps-refl w.tables
            | some b ↦
                bind-IsKeeping (collect_gaps env left (from_trusted (add_i64 b.value (pos 1))) r)
                  (λ rest. pure (b ∷ rest))
                  (collect_gaps-IsKeeping left (from_trusted (add_i64 b.value (pos 1))) r)
                  (λ rest w. Keeps-refl w.tables)
          ]))
        (λ w. Keeps-refl w.tables)

  fill_found-IsKeeping : (r : BlockNumber) (bs : List BlockNumber) → IsKeeping (fill_found env r bs)
  unfolding fill_found
  fill_found-IsKeeping r [] = λ w. Keeps-refl w.tables
  fill_found-IsKeeping r (b ∷ bs) =
      bind-IsKeeping (process_missing_blocks_batch env (b ∷ bs)) _
        (missing_batch-IsKeeping env (b ∷ bs)) (λ t w. Keeps-refl w.tables)

  fill_null_found-IsKeeping :
      (r : BlockNumber) (bs : List BlockNumber) → IsKeeping (fill_null_found env r bs)
  unfolding fill_null_found
  fill_null_found-IsKeeping r [] = λ w. Keeps-refl w.tables
  fill_null_found-IsKeeping r (b ∷ bs) =
      bind-IsKeeping (process_null_blocks_batch env (b ∷ bs)) _ (null_batch-IsKeeping env (b ∷ bs))
        (λ t w. Keeps-refl w.tables)

  fill_rounds-IsKeeping : (fuel : ℕ) (a e : BlockNumber) → IsKeeping (fill_rounds env fuel a e)
  unfolding fill_rounds
  fill_rounds-IsKeeping zero a e = λ w. Keeps-refl w.tables
  fill_rounds-IsKeeping (suc fuel) a e =
      let r : BlockNumber = calculate_range_end e a in
      let fill : List BlockNumber → Action BlockchainError (Unit {0}) =
        λ bs. fill_found env r bs >>= λ next. fill_rounds env fuel next e in
      bind-IsKeeping (load_terminate env) _ (load_terminate-IsKeeping BlockchainError) (λ stop.
        if-IsKeeping (stop || ltb_ℤ e.value a.value) (pure tt) (collect_gaps env 100 a r >>= fill)
          (λ w. Keeps-refl w.tables)
          (bind-IsKeeping (collect_gaps env 100 a r) fill (collect_gaps-IsKeeping 100 a r) (λ bs.
            bind-IsKeeping (fill_found env r bs) (λ next. fill_rounds env fuel next e)
              (fill_found-IsKeeping r bs) (λ next. fill_rounds-IsKeeping fuel next e))))

  null_rounds-IsKeeping : (fuel : ℕ) (a e : BlockNumber) → IsKeeping (null_rounds env fuel a e)
  unfolding null_rounds
  null_rounds-IsKeeping zero a e = λ w. Keeps-refl w.tables
  null_rounds-IsKeeping (suc fuel) a e =
      let r : BlockNumber = calculate_range_end e a in
      let fill : List BlockNumber → Action BlockchainError (Unit {0}) =
        λ bs. fill_null_found env r bs >>= λ next. null_rounds env fuel next e in
      bind-IsKeeping (load_terminate env) _ (load_terminate-IsKeeping BlockchainError) (λ stop.
        if-IsKeeping (stop || ltb_ℤ e.value a.value) (pure tt) (find_null_data env a r >>= fill)
          (λ w. Keeps-refl w.tables)
          (bind-IsKeeping (find_null_data env a r) fill (find_null_data-IsKeeping env a r) (λ bs.
            bind-IsKeeping (fill_null_found env r bs) (λ next. null_rounds env fuel next e)
              (fill_null_found-IsKeeping r bs) (λ next. null_rounds-IsKeeping fuel next e))))

  get_range_end-IsKeeping :
      (end_block : Option BlockNumber) → IsKeeping (get_range_end env end_block)
  unfolding get_range_end
  get_range_end-IsKeeping (some s) = λ w. Keeps-refl w.tables
  get_range_end-IsKeeping none = get_last_stored-IsKeeping env

  -- Whatever the node answers, whenever a statement is refused or a task is cut off, a run of
  -- `fill_gaps` loses no block and leaves the metadata of the services alone.
  pub fill_gaps-IsKeeping :
      (start end_block : Option BlockNumber) (w : World)
      → Keeps w.tables (fill_gaps env start end_block w).1.tables
  unfolding fill_gaps fill_missing_blocks_in_range fill_null_rows
  fill_gaps-IsKeeping start end_block =
      let s : BlockNumber = unwrap_or start (from_trusted (pos 0)) in
      bind-IsKeeping (get_range_end env end_block) _ (get_range_end-IsKeeping end_block) (λ e.
        if-IsKeeping (ltb_ℤ e.value (pos 0) || Types.eq s e) (pure tt)
          (fill_missing_blocks_in_range env s e >> fill_null_rows env s e)
          (λ w. Keeps-refl w.tables)
          (bind-IsKeeping (fill_missing_blocks_in_range env s e) (λ _. fill_null_rows env s e)
            (fill_rounds-IsKeeping _ s e) (λ _. null_rounds-IsKeeping _ s e)))

  update_batches-IsKeeping :
      (ns : List ℤ) (last_block : BlockNumber) (size : ℕ)
      → IsKeeping (update_batches env ns last_block size)
  unfolding update_batches process_block_range
  update_batches-IsKeeping [] last_block size = λ w. Keeps-refl w.tables
  update_batches-IsKeeping (n ∷ ns) last_block size =
      let rest = update_batches env ns last_block size in
      let batch =
        process_block_range env n
          (min_ℤ (add_i64 last_block.value (pos 1)) (add_i64 n (pos size))) in
      let press : Tally → Action BlockchainError Bool =
        λ t. apply_backpressure_if_needed (length t.failed_blocks) t.successful_count in
      let finish : Tally → Action BlockchainError (Unit {0}) =
        λ t. if handle_batch_completion t.failed_blocks then rest else pure tt in
      let judge : Tally → Bool → Action BlockchainError (Unit {0}) =
        λ t continues. if not continues then pure tt else finish t in
      let go : Tally → Action BlockchainError (Unit {0}) = λ t. press t >>= judge t in
      bind-IsKeeping (load_terminate env) _ (load_terminate-IsKeeping BlockchainError) (λ stop.
        if-IsKeeping stop (pure tt) (batch >>= go) (λ w. Keeps-refl w.tables)
          (bind-IsKeeping batch go (block_batch-IsKeeping env _) (λ t.
            bind-IsKeeping (press t) (judge t)
              (backpressure-IsKeeping (length t.failed_blocks) t.successful_count)
              (λ continues.
                if-IsKeeping (not continues) (pure tt) (finish t) (λ w. Keeps-refl w.tables)
                  (if-IsKeeping (handle_batch_completion t.failed_blocks) rest (pure tt)
                    (update_batches-IsKeeping ns last_block size) (λ w. Keeps-refl w.tables))))))

  update_blocks-IsKeeping : (s l : BlockNumber) (size : ℕ) → IsKeeping (update_blocks env s l size)
  unfolding update_blocks
  update_blocks-IsKeeping s l size =
      let ns : List ℤ = steps (suc (span (l.value -ℤ s.value))) s.value size l.value in
      let go : Action Failure (Unit {0}) = map_fault failed (update_batches env ns l size) in
      if-IsKeeping (not (Types.le s l)) (pure tt) (if size == 0 then raise crashed else go)
        (λ w. Keeps-refl w.tables)
        (if-IsKeeping (size == 0) (raise crashed) go (λ w. Keeps-refl w.tables)
          (update_batches-IsKeeping ns l size))

  -- If the run has ended, nothing is lost since the given tables.
  abbrev pub EndsKept : Tables → Option (Result Failure (Unit {0}) × World) → Type 0
  EndsKept t none = Unit {0}
  EndsKept t (some r) = Keeps t r.1.tables

  chain_from-EndsKept :
      (fuel : ℕ) (waiting : Bool) (s l : BlockNumber) (size : ℕ) (t : Tables) (w : World)
      → Keeps t w.tables
      → EndsKept t (chain_from env fuel waiting s l size w)
  unfolding chain_from load_terminate ask_finalized sleep sleep_millis
  chain_from-EndsKept zero waiting s l size t w kept = tt
  chain_from-EndsKept (suc fuel) false s l size t w kept =
      let v : World = record w { tick = w.tick + 1 } in
      let m : Result Failure (Unit {0}) × World = update_blocks env s l size v in
      let kept' : Keeps t m.1.tables =
        Keeps-then t v.tables m.1.tables kept (update_blocks-IsKeeping s l size v) in
      elim (Bool-cases (env.terminated w.tick)) [
        | inl stop ↦ rw stop kept
        | inr go ↦ elim (Result-cases m.0) [
          | inr (e, p) ↦ rw (go, p) kept'
          | inl (a, p) ↦ rw (go, p) (chain_from-EndsKept fuel true s l size t m.1 kept')
        ]
      ]
  chain_from-EndsKept (suc fuel) true s l size t w kept =
      elim (Bool-cases (env.terminated w.tick)) [
        | inl stop ↦
            rw stop
              (chain_from-EndsKept fuel false s l size t (record w { tick = w.tick + 1 }) kept)
        | inr go ↦ elim (Result-cases (env.finalized (w.tick + 1))) [
          | inr (e, p) ↦ rw (go, p) kept
          | inl (b, p) ↦ elim (Bool-cases (Types.lt l b)) [
            | inl more ↦
                rw (go, p, more)
                  (chain_from-EndsKept fuel false (Types.add l (pos 1)) b size t
                    (record w { tick = w.tick + 1 + 1 }) kept)
            | inr same ↦
                rw (go, p, same)
                  (chain_from-EndsKept fuel true s l size t
                    (record w { tick = w.tick + 1 + 1; slept = 60 * 1000 ∷ w.slept }) kept)
          ]
        ]
      ]

  update_bounds-IsKeeping :
      (start end_block : Option BlockNumber) → IsKeeping (update_bounds env start end_block)
  unfolding update_bounds get_last_block get_first_missing_block
  update_bounds-IsKeeping start end_block =
      bind-IsKeeping (get_first_missing_block env start) _ (first start) (λ s.
        bind-IsKeeping (get_last_block env end_block) (λ l. pure (s, l))
          (bind-IsKeeping (ask_finalized env) (λ b. pure (at_most env end_block b))
            ask_finalized-IsKeeping (λ b w. Keeps-refl w.tables))
          (λ l w. Keeps-refl w.tables))
    where
      first : (start : Option BlockNumber) → IsKeeping (get_first_missing_block env start)
      first none =
          bind-IsKeeping (get_last_stored_blocknumber env) _ (get_last_stored-IsKeeping env)
            (λ b w. Keeps-refl w.tables)
      first (some b) = λ w. Keeps-refl w.tables

  -- Whatever the node answers, whenever a statement is refused or a task is cut off: where a run of
  -- `update_from` has ended, it has lost no block and left the metadata of the services alone.
  pub update_from-EndsKept :
      (fuel : ℕ) (start end_block : Option BlockNumber) (size : ℕ) (w : World)
      → EndsKept w.tables (update_from env fuel start end_block size w)
  unfolding update_from update_range
  update_from-EndsKept fuel start end_block size w =
      let m : Result BlockchainError (BlockNumber × BlockNumber) × World =
        update_bounds env start end_block w in
      settled m.0 m.1 (update_bounds-IsKeeping start end_block w)
    where
      ranged :
          (end_block : Option BlockNumber) (s l : BlockNumber) (v : World)
          → Keeps w.tables v.tables
          → EndsKept w.tables (update_range env end_block fuel s l size v)
      ranged (some b) s l v kept =
          Keeps-then w.tables v.tables (update_blocks env s l size v).1.tables kept
            (update_blocks-IsKeeping s l size v)
      ranged none s l v kept = chain_from-EndsKept fuel false s l size w.tables v kept

      settled :
          (r : Result BlockchainError (BlockNumber × BlockNumber)) (v : World)
          → Keeps w.tables v.tables
          → EndsKept w.tables (elim r as (λ x. Option (Result Failure (Unit {0}) × World)) [
            | err e ↦ some (err (failed e), v)
            | ok (s, l) ↦ update_range env end_block fuel s l size v
          ])
      settled (err e) v kept = kept
      settled (ok (s, l)) v kept = ranged end_block s l v kept
