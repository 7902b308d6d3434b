-- ===== src/Batch/Keeping.antt =====
-- src/indexer/batch_service.rs: what a cycle keeps of the blocks and of the metadata that the quick
-- service relies on.
use fossil_headers_db.Prelude.{
  ℕ, zero, suc, ◌+◌, ℤ, ◌≡◌, refl, ap, ◌∙◌, inl, inr, Bool, true, false, List, [], ◌∷◌, map, arith,
  Bool-cases, Option-cases, is_empty, length, unwrap_or, leb_ℤ, min_ℤ, ◌-ℤ◌, pos, if◌then◌else◌,
}
use fossil_headers_db.Prelude.Machine.{add_i64, sub_i64}
use fossil_headers_db.Blocks.{span}
use fossil_headers_db.Result.{Result, ok, err, Result-cases}
use fossil_headers_db.Errors.{Report}
use fossil_headers_db.Types.{BlockNumber}
use fossil_headers_db.Config.Batch.{BatchIndexConfig}
use fossil_headers_db.Database.Rows.{IndexMetadataDto, Tables, stored}
use fossil_headers_db.Database.Action.{
  Env, World, Action, continue, begin, execute, commit, query, load_terminate, pure, ◌>>◌,
}
use fossil_headers_db.Repositories.Metadata.{
  with_backfilling, with_backfilling_block, update_metadata, set_is_backfilling, first_row,
  get_index_metadata,
}
use fossil_headers_db.Quick.Invariant.{NoGaps}
use fossil_headers_db.Batch.{
  chunk_size, get_current_metadata, find_missing_blocks_with_db, find_from, find_chunk,
  is_backfill_complete, mark_backfill_complete, update_backfilling_progress, fill_missing_blocks,
  fill_batches, process_missing_blocks_in_batches, finish_cycle, process_missing_blocks_cycle,
}
use fossil_headers_db.Batch.Responses.{chunks}
use fossil_headers_db.Batch.Missing.{block_values, find_chunk-tables}
use fossil_headers_db.Batch.Filling.{Fills, fill_missing_blocks-Fills}

-- The latest blocks that the rows of the metadata record.
abbrev pub recorded : List IndexMetadataDto → List ℤ
recorded rows = map (λ m. m.current_latest_block_number) rows

-- No block is lost, and the recorded latest blocks are those that were.
pub record Grows (t t' : Tables) : Type 0 where
  pub blocks : (n : ℤ) → stored n t.blockheaders ≡ true → stored n t'.blockheaders ≡ true
  pub records : recorded t'.index_metadata ≡ recorded t.index_metadata

Grows-same : (t t' : Tables) → t' ≡ t → Grows t t'
Grows-same t t' same = rw same (record { blocks = λ n h. h; records = refl })

Grows-then : (t u v : Tables) → Grows t u → Grows u v → Grows t v
Grows-then t u v g h = record {
  blocks = λ n k. h.blocks n (g.blocks n k);
  records = h.records ∙ g.records;
}

first_row-recorded :
    (rows rows' : List IndexMetadataDto) (m' : IndexMetadataDto)
    → recorded rows' ≡ recorded rows
    → first_row rows' ≡ ok m'
    → (m : IndexMetadataDto) × (first_row rows ≡ ok m)
      × (m'.current_latest_block_number ≡ m.current_latest_block_number)
unfolding first_row
first_row-recorded rows [] m' same h = absurd cc
first_row-recorded [] (r' ∷ rows') m' same h = absurd cc
first_row-recorded (r ∷ rows) (r' ∷ rows') m' same h =
    let e : r' ≡ m' = cc in (r, refl, rw (← e) cc)

-- Growth keeps the invariant.
Grows-NoGaps : (start : ℤ) (t t' : Tables) → Grows t t' → NoGaps start t → NoGaps start t'
Grows-NoGaps start t t' g gaps = record {
  near = λ m' h.
      let (m, e, same) = first_row-recorded t.index_metadata t'.index_metadata m' g.records h in
      rw same (gaps.near m e);
  covered = λ m' h n low high.
      let (m, e, same) = first_row-recorded t.index_metadata t'.index_metadata m' g.records h in
      g.blocks n (gaps.covered m e n low (rw same at high));
}

Fills-Grows :
    (ns : List ℤ) (w : World) (m : Result Report (Unit {0}) × World)
    → Fills ns w m
    → Grows w.tables m.1.tables
Fills-Grows ns w (ok a, v) (blocks, same) = record {
  blocks = λ n h. rw (blocks n, h) (ground arith);
  records = ap recorded same;
}
Fills-Grows ns w (err e, v) same = Grows-same w.tables v.tables same

with_backfilling_block-recorded :
    (k : ℤ) (now : ℕ) (rows : List IndexMetadataDto)
    → recorded (map (with_backfilling_block k now) rows) ≡ recorded rows
with_backfilling_block-recorded k now [] = refl
with_backfilling_block-recorded k now (r ∷ rows) =
    ap (λ ns. r.current_latest_block_number ∷ ns) (with_backfilling_block-recorded k now rows)

with_backfilling-recorded :
    (b : Bool) (now : ℕ) (rows : List IndexMetadataDto)
    → recorded (map (with_backfilling b now) rows) ≡ recorded rows
with_backfilling-recorded b now [] = refl
with_backfilling-recorded b now (r ∷ rows) =
    ap (λ ns. r.current_latest_block_number ∷ ns) (with_backfilling-recorded b now rows)

module _ (env : Env) (config : BatchIndexConfig) where
  mark_backfill_complete-Grows :
      (w : World) → Grows w.tables (mark_backfill_complete env config w).1.tables
  unfolding mark_backfill_complete begin set_is_backfilling execute commit update_metadata
  mark_backfill_complete-Grows w = elim (Option-cases (env.fault w.tick)) [
    | inr (e, p) ↦ rw p (Grows-same w.tables w.tables refl)
    | inl fine ↦ elim (Option-cases (env.fault (w.tick + 1))) [
      | inr (e, p) ↦ rw (fine, p) (Grows-same w.tables w.tables refl)
      | inl fine' ↦ elim (Option-cases (env.fault (w.tick + 1 + 1))) [
        | inr (e, p) ↦ rw (fine, fine', p) (Grows-same w.tables w.tables refl)
        | inl done ↦
            rw (fine, fine', done)
              (record {
                blocks = λ n h. h;
                records =
                    with_backfilling-recorded false (env.now (w.tick + 1)) w.tables.index_metadata;
              })
      ]
    ]
  ]

  update_backfilling_progress-Grows :
      (k : ℤ) (w : World) → Grows w.tables (update_backfilling_progress env config k w).1.tables
  unfolding update_backfilling_progress begin execute commit update_metadata
  update_backfilling_progress-Grows k w = elim (Option-cases (env.fault w.tick)) [
    | inr (e, p) ↦ rw p (Grows-same w.tables w.tables refl)
    | inl fine ↦ elim (Option-cases (env.fault (w.tick + 1))) [
      | inr (e, p) ↦ rw (fine, p) (Grows-same w.tables w.tables refl)
      | inl fine' ↦ elim (Option-cases (env.fault (w.tick + 1 + 1))) [
        | inr (e, p) ↦ rw (fine, fine', p) (Grows-same w.tables w.tables refl)
        | inl done ↦
            rw (fine, fine', done)
              (record {
                blocks = λ n h. h;
                records =
                    with_backfilling_block-recorded k (env.now (w.tick + 1))
                      w.tables.index_metadata;
              })
      ]
    ]
  ]

  get_current_metadata-tables :
      (w : World) → (get_current_metadata env config w).1.tables ≡ w.tables
  unfolding get_current_metadata get_index_metadata query
  get_current_metadata-tables w = ground arith

  continue-Grows :
      {A B : Type 0} (w : World) (m : Result Report A × World) (f : A → Action Report B)
      → Grows w.tables m.1.tables
      → ((a : A) → Grows m.1.tables (f a m.1).1.tables)
      → Grows w.tables (continue m.0 f m.1).1.tables
  continue-Grows w (ok a, v) f g h = Grows-then w.tables v.tables (f a v).1.tables g (h a)
  continue-Grows w (err e, v) f g h = g

  continue-tables :
      {A B : Type 0} (w : World) (m : Result Report A × World) (f : A → Action Report B)
      → m.1.tables ≡ w.tables
      → ((a : A) → (f a m.1).1.tables ≡ m.1.tables)
      → (continue m.0 f m.1).1.tables ≡ w.tables
  continue-tables w (ok a, v) f g h = h a ∙ g
  continue-tables w (err e, v) f g h = g

  find_from-tables :
      (fuel : ℕ) (a b : ℤ) (w : World) → (find_from env config fuel a b w).1.tables ≡ w.tables
  unfolding find_from
  find_from-tables zero a b w = refl
  find_from-tables (suc fuel) a b w =
      let c : ℤ = min_ℤ (sub_i64 (add_i64 a chunk_size) (pos 1)) b in
      let v : World = (find_chunk env config a c w).1 in
      elim (Bool-cases (leb_ℤ a b)) [
        | inr past ↦ rw past refl
        | inl inside ↦ rw inside (
            continue-tables w (find_chunk env config a c w) _ (find_chunk-tables env config a c w)
              (λ chunk.
                continue-tables v (find_from env config fuel (add_i64 c (pos 1)) b v) _
                  (find_from-tables fuel (add_i64 c (pos 1)) b v) (λ rest. refl)))
      ]

  find_missing_blocks-tables :
      (a b : ℤ) (w : World) → (find_missing_blocks_with_db env config a b w).1.tables ≡ w.tables
  unfolding find_missing_blocks_with_db
  find_missing_blocks-tables a b w =
      continue-tables w (find_from env config (suc (span (b -ℤ a))) a b w) _
        (find_from-tables (suc (span (b -ℤ a))) a b w) (λ missing. refl)

  fill_batches-Grows :
      (bss : List (List BlockNumber)) (w : World)
      → Grows w.tables (fill_batches env config bss w).1.tables
  unfolding fill_batches load_terminate
  fill_batches-Grows [] w = Grows-same w.tables w.tables refl
  fill_batches-Grows (bs ∷ bss) w =
      let v : World = record w { tick = w.tick + 1 } in
      elim (Bool-cases (env.terminated w.tick)) [
        | inl stop ↦ rw stop (Grows-same w.tables w.tables refl)
        | inr go ↦ rw go (
            continue-Grows v (fill_missing_blocks env config bs v)
              (λ _. fill_batches env config bss)
              (Fills-Grows (block_values bs) v (fill_missing_blocks env config bs v)
                (fill_missing_blocks-Fills env config bs v))
              (λ a. fill_batches-Grows bss (fill_missing_blocks env config bs v).1))
      ]

  finish_cycle-Grows :
      (a b : ℤ) (w : World) → Grows w.tables (finish_cycle env config a b w).1.tables
  unfolding finish_cycle is_backfill_complete
  finish_cycle-Grows a b w =
      let m = find_missing_blocks_with_db env config a b w in
      let searched : Grows w.tables m.1.tables =
        Grows-same w.tables m.1.tables (find_missing_blocks-tables a b w) in
      let u : World = (update_backfilling_progress env config a m.1).1 in
      elim (Result-cases m.0) [
        | inr (e, p) ↦ rw p searched
        | inl (bs, p) ↦ elim (Bool-cases (is_empty bs)) [
          | inr some_left ↦ rw (p, some_left) searched
          | inl none_left ↦
              rw (p, none_left)
                (Grows-then w.tables m.1.tables _ searched (
                  continue-Grows m.1 (update_backfilling_progress env config a m.1) _
                    (update_backfilling_progress-Grows a m.1)
                    (λ _.
                      continue-Grows u (mark_backfill_complete env config u) _
                        (mark_backfill_complete-Grows u) (λ _. Grows-same _ _ refl))))
        ]
      ]

  -- A cycle of the batch service, whatever the node answers and whenever a statement is refused,
  -- loses no block, and the rows of the metadata record the latest blocks that they did.
  pub process_missing_blocks_cycle-Grows :
      (w : World) → Grows w.tables (process_missing_blocks_cycle env config w).1.tables
  unfolding process_missing_blocks_cycle process_missing_blocks_in_batches
  process_missing_blocks_cycle-Grows w =
      let v : World = (get_current_metadata env config w).1 in
      continue-Grows w (get_current_metadata env config w) _
        (Grows-same w.tables v.tables (get_current_metadata-tables w))
        (λ metadata.
          let a : ℤ = metadata.indexing_starting_block_number in
          let b : ℤ =
            unwrap_or metadata.backfilling_block_number metadata.current_latest_block_number in
          let u : World = (find_missing_blocks_with_db env config a b v).1 in
          continue-Grows v (find_missing_blocks_with_db env config a b v) _
            (Grows-same v.tables u.tables (find_missing_blocks-tables a b v)) (λ bs. rest a b bs u))
    where
      rest :
          (a b : ℤ) (bs : List BlockNumber) (u : World)
          → Grows u.tables
              ((if is_empty bs
                  then (mark_backfill_complete env config >> pure true)
                  else (process_missing_blocks_in_batches env config bs
                      >> finish_cycle env config a b))
                u).1.tables
      rest a b bs u = elim (Bool-cases (is_empty bs)) [
        | inl none_left ↦ rw none_left (
            continue-Grows u (mark_backfill_complete env config u) _
              (mark_backfill_complete-Grows u) (λ _. Grows-same _ _ refl))
        | inr some_left ↦ rw some_left (
            continue-Grows u (process_missing_blocks_in_batches env config bs u) _
              (fill_batches-Grows (chunks (length bs) config.index_batch_size bs) u)
              (λ _. finish_cycle-Grows a b (process_missing_blocks_in_batches env config bs u).1))
      ]

  -- A cycle of the batch service keeps the invariant of the quick service, whatever the node answers
  -- and whenever a statement is refused: from `start` to the recorded latest block no block is
  -- missing.
  pub process_missing_blocks_cycle-NoGaps :
      (start : ℤ) (w : World)
      → NoGaps start w.tables
      → NoGaps start (process_missing_blocks_cycle env config w).1.tables
  process_missing_blocks_cycle-NoGaps start w =
      Grows-NoGaps start w.tables _ (process_missing_blocks_cycle-Grows w)
